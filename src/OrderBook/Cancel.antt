-- ===== src/OrderBook/Cancel.antt =====
-- The cancellation of an order.
use knowledge_acquisition.Prelude.{
  ℕ, ◌+◌, ◌<◌, ◌≡◌, refl, sym, ap, ◌∙◌, arith, true, false, List, [], ◌∷◌, ◌++◌, append_assoc, All,
  ltb, ◌==◌, Bool-cases, inl, inr, if◌then◌else◌,
}
use knowledge_acquisition.OrderBook.{
  Side, Order, Limit, order_at, before, unlink, remove_order, put_limit, cancel_in,
}
use knowledge_acquisition.OrderBook.Match.{count, view, Stands}
use knowledge_acquisition.OrderBook.Sweep.{nodes_of, IsSide, view_append, count_append}
use knowledge_acquisition.OrderBook.Rest.{side_view, before_self}

-- One order less, and the others in their places.
pub record Loses (order : Order) (orders orders' : List Order) : Type 0 where
  pub better : List Order
  pub worse : List Order
  pub was : orders ≡ better ++ (order ∷ worse)
  pub is : orders' ≡ better ++ worse

Loses-cons :
    (o order : Order) (orders orders' : List Order)
    → Loses order orders orders'
    → Loses order (o ∷ orders) (o ∷ orders')
Loses-cons o order orders orders' l = record {
  better = o ∷ l.better;
  worse = l.worse;
  was = ap (◌∷◌ o) l.was;
  is = ap (◌∷◌ o) l.is;
}

Loses-append :
    (order : Order) (xs orders orders' : List Order)
    → Loses order orders orders'
    → Loses order (xs ++ orders) (xs ++ orders')
Loses-append order [] orders orders' l = l
Loses-append order (x ∷ xs) orders orders' l =
    Loses-cons x order (xs ++ orders) (xs ++ orders') (Loses-append order xs orders orders' l)

Loses-before :
    (order : Order) (orders orders' ys : List Order)
    → Loses order orders orders'
    → Loses order (orders ++ ys) (orders' ++ ys)
Loses-before order orders orders' ys l = record {
  better = l.better;
  worse = l.worse ++ ys;
  was = rw l.was (append_assoc l.better (order ∷ l.worse) ys);
  is = rw l.is (append_assoc l.better l.worse ys);
}

module _ (pool : List Order) (node : ℕ) where
  count-unlink :
      (m : ℕ) (nodes : List ℕ)
      → 0 < count node nodes
      → count m (unlink node nodes) + (if node == m then 1 else 0) ≡ count m nodes
  count-unlink m [] l = absurd (omega arith)
  count-unlink m (n ∷ nodes) l = elim (Bool-cases (n == node)) [
    | inl t ↦ let own : n ≡ node = ground arith in rw (t, own) (omega arith)
    | inr t ↦
        let k : 0 < count node nodes = ground arith in
        rw t (let r = count-unlink m nodes k in omega arith)
  ]

  pub view-unlink :
      (nodes : List ℕ)
      → 0 < count node nodes
      → Loses (order_at pool node) (view pool nodes) (view pool (unlink node nodes))
  view-unlink [] l = absurd (omega arith)
  view-unlink (n ∷ nodes) l = elim (Bool-cases (n == node)) [
    | inl t ↦
        let own : n ≡ node = ground arith in
        rw (t, own) (record { better = []; worse = view pool nodes; was = refl; is = refl })
    | inr t ↦ rw t (
        Loses-cons (order_at pool n) (order_at pool node) (view pool nodes)
          (view pool (unlink node nodes)) (view-unlink nodes (ground arith)))
  ]

  All-unlink : (P : ℕ → Type 0) (nodes : List ℕ) → All P nodes → All P (unlink node nodes)
  All-unlink P [] a = tt
  All-unlink P (n ∷ nodes) (p, a) = elim (Bool-cases (n == node)) [
    | inl t ↦ rw t a
    | inr t ↦ rw t (p, All-unlink P nodes a)
  ]

  Stands-listed :
      (price : ℕ) (side : Side) (nodes : List ℕ)
      → All (Stands pool price side) nodes
      → 0 < count node nodes
      → Stands pool price side node
  Stands-listed price side [] a l = absurd (omega arith)
  Stands-listed price side (n ∷ nodes) (p, a) l = elim (Bool-cases (n == node)) [
    | inl t ↦ let own : n ≡ node = ground arith in rw own at p
    | inr t ↦ Stands-listed price side nodes a (ground arith)
  ]

  -- A node of the limits behind a price has a worse price.
  listed_worse :
      (price : ℕ) (side : Side) (limits : List (ℕ × Limit))
      → All (λ entry. before side price entry.0 ≡ true) limits
      → IsSide pool side limits
      → 0 < count node (nodes_of limits)
      → before side price (order_at pool node).price ≡ true
  listed_worse price side [] b s l = absurd (omega arith)
  listed_worse price side ((p, limit) ∷ limits) (f, b) (n, a, c, s) l =
      let d = count_append node limit.orders (nodes_of limits) in
      elim (Bool-cases (ltb 0 (count node limit.orders))) [
        | inl t ↦ let (q, r) = Stands-listed p side limit.orders a (ground arith) in rw q f
        | inr t ↦ listed_worse price side limits b s (ground arith)
      ]

  pub listed_side :
      (side : Side) (limits : List (ℕ × Limit))
      → IsSide pool side limits
      → 0 < count node (nodes_of limits)
      → (order_at pool node).side ≡ side
  listed_side side [] s l = absurd (omega arith)
  listed_side side ((p, limit) ∷ limits) (n, a, c, s) l =
      let d = count_append node limit.orders (nodes_of limits) in
      elim (Bool-cases (ltb 0 (count node limit.orders))) [
        | inl t ↦ let (q, r) = Stands-listed p side limit.orders a (ground arith) in r
        | inr t ↦ listed_side side limits s (ground arith)
      ]

  -- What a cancellation does to its side.
  pub record Cancels (side : Side) (limits limits' : List (ℕ × Limit)) : Type 0 where
    pub counted :
        (m : ℕ)
        → count m (nodes_of limits') + (if node == m then 1 else 0) ≡ count m (nodes_of limits)
    pub sides : IsSide pool side limits'
    pub loses : Loses (order_at pool node) (side_view pool limits) (side_view pool limits')
    pub behind :
        (price : ℕ)
        → All (λ entry. before side price entry.0 ≡ true) limits
        → All (λ entry. before side price entry.0 ≡ true) limits'

  -- The limit of the order, of which `orders` are left.
  put_limit-Cancels :
      (side : Side) (p volume : ℕ) (limit : Limit) (limits : List (ℕ × Limit)) (orders : List ℕ)
      → unlink node limit.orders ≡ orders
      → 0 < count node limit.orders
      → IsSide pool side ((p, limit) ∷ limits)
      → Cancels side
          ((p, limit) ∷ limits)
          (put_limit p (record { total_volume = volume; orders = orders }) limits)
  put_limit-Cancels side p volume limit limits [] e l (n, a, b, s) = record {
    counted = λ m.
        let c = count_append m limit.orders (nodes_of limits) in
        let u = rw e at (count-unlink m limit.orders l) in omega arith;
    sides = s;
    loses =
        let x = rw e at (view-unlink limit.orders l) in
        rw (view_append pool limit.orders (nodes_of limits))
          (Loses-before (order_at pool node) (view pool limit.orders) [] (side_view pool limits) x);
    behind = λ price h. h.1;
  }
  put_limit-Cancels side p volume limit limits (o ∷ orders) e l (n, a, b, s) = record {
    counted = λ m.
        let c = count_append m limit.orders (nodes_of limits) in
        let d = count_append m (o ∷ orders) (nodes_of limits) in
        let u = rw e at (count-unlink m limit.orders l) in omega arith;
    sides = (omega arith, rw e at (All-unlink _ limit.orders a), b, s);
    loses =
        let x = rw e at (view-unlink limit.orders l) in
        rw
          (
            view_append pool limit.orders (nodes_of limits),
            view_append pool orders (nodes_of limits),
          )
          (Loses-before (order_at pool node) (view pool limit.orders) (view pool (o ∷ orders))
            (side_view pool limits) x);
    behind = λ price h. h;
  }

  -- The order of a node is in the level of its price.
  pub in_level :
      (side : Side) (p : ℕ) (limit : Limit) (limits : List (ℕ × Limit))
      → p ≡ (order_at pool node).price
      → All (λ entry. before side p entry.0 ≡ true) limits
      → IsSide pool side limits
      → 0 < count node limit.orders + count node (nodes_of limits)
      → 0 < count node limit.orders
  in_level side p limit limits own b s l = elim (Bool-cases (ltb 0 (count node limit.orders))) [
    | inl t ↦ ground arith
    | inr t ↦
        let w = listed_worse p side limits b s (ground arith) in
        let x = before_self side p in
        let y : before side p p ≡ true = rw (← own) at w in absurd (let z = sym x ∙ y in cc)
  ]

  pub not_level :
      (side : Side) (p : ℕ) (limit : Limit)
      → All (Stands pool p side) limit.orders
      → (p == (order_at pool node).price) ≡ false
      → count node limit.orders ≡ 0
  not_level side p limit a t = elim (Bool-cases (ltb 0 (count node limit.orders))) [
    | inl f ↦ let (q, r) = Stands-listed p side limit.orders a (ground arith) in ground arith
    | inr f ↦ ground arith
  ]

  pub cancel_in-Cancels :
      (side : Side) (qty : ℕ) (limits : List (ℕ × Limit))
      → IsSide pool side limits
      → 0 < count node (nodes_of limits)
      → Cancels side limits (cancel_in (order_at pool node).price node qty limits)
  unfolding cancel_in
  cancel_in-Cancels side qty [] s l = absurd (omega arith)
  cancel_in-Cancels side qty ((p, limit) ∷ limits) (n, a, b, s) l =
      let price = (order_at pool node).price in
      let c = count_append node limit.orders (nodes_of limits) in
      elim (Bool-cases (p == price)) [
        | inl t ↦
            let own : p ≡ price = ground arith in
            let here : 0 < count node limit.orders =
              in_level side p limit limits own b s (omega arith) in
            rw (t, cancel_in)
              (put_limit-Cancels side p (remove_order node qty limit).total_volume limit limits
                (unlink node limit.orders) refl here (n, a, b, s))
        | inr t ↦
            let out : count node limit.orders ≡ 0 = not_level side p limit a t in
            let r = cancel_in-Cancels side qty limits s (omega arith) in
            rw (t, cancel_in)
              (record {
                counted = λ m.
                    let d = count_append m limit.orders (nodes_of limits) in
                    let e =
                      count_append m limit.orders (nodes_of (cancel_in price node qty limits)) in
                    let k = r.counted m in omega arith;
                sides = (n, a, r.behind p b, r.sides);
                loses =
                    rw
                      (
                        view_append pool limit.orders (nodes_of limits),
                        view_append pool limit.orders (nodes_of (cancel_in price node qty limits)),
                      )
                      (Loses-append (order_at pool node) (view pool limit.orders)
                        (side_view pool limits) (side_view pool (cancel_in price node qty limits))
                        r.loses);
                behind = λ best h. (h.0, r.behind best h.1);
              })
      ]
