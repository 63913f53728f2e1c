-- ===== src/OrderBook/Rest.antt =====
-- The booking of what is left.
use knowledge_acquisition.Prelude.{
  ℕ, ◌+◌, ◌≡◌, refl, sym, ap, ◌∙◌, arith, true, false, List, [], ◌∷◌, ◌++◌, append_assoc,
  length-append, All, All-append, ◌==◌, Bool-cases, inl, inr, if◌then◌else◌,
}
use knowledge_acquisition.OrderBook.{Side, buy, sell, Order, Limit, order_at, before, book_order}
use knowledge_acquisition.OrderBook.Match.{count, view, Stands}
use knowledge_acquisition.OrderBook.Sweep.{nodes_of, IsSide, view_append, count_append, view_price}

-- The place of a new order in the queue: behind all that are as good as it.
abbrev pub queue_order : Side → Order → List Order → List Order
queue_order side order [] = order ∷ []
queue_order side order (o ∷ orders) =
    let rest = queue_order side order orders in
    if before side order.price o.price then order ∷ o ∷ orders else o ∷ rest

-- The orders of a level are as good as the new one or better.
queue_order-append :
    (side : Side) (order : Order) (best : ℕ) (orders rest : List Order)
    → All (λ o. o.price ≡ best) orders
    → before side order.price best ≡ false
    → queue_order side order (orders ++ rest) ≡ orders ++ queue_order side order rest
queue_order-append side order best [] rest a f = refl
queue_order-append side order best (o ∷ orders) rest (p, a) f =
    let g : before side order.price o.price ≡ false = rw p f in
    rw (g, queue_order) (ap (◌∷◌ o) (queue_order-append side order best orders rest a f))

pub before_self : (side : Side) (p : ℕ) → before side p p ≡ false
before_self buy p = ground arith
before_self sell p = ground arith

-- The order goes before everything that is worse.
queue_order-first :
    (side : Side) (order : Order) (orders : List Order)
    → All (λ o. before side order.price o.price ≡ true) orders
    → queue_order side order orders ≡ order ∷ orders
queue_order-first side order [] a = refl
queue_order-first side order (o ∷ orders) (p, a) = rw (p, queue_order) refl

-- What the limits of a side stand for.
abbrev pub side_view : List Order → List (ℕ × Limit) → List Order
side_view pool limits = view pool (nodes_of limits)

pub worse_view :
    (pool : List Order) (side : Side) (price : ℕ) (limits : List (ℕ × Limit))
    → All (λ entry. before side price entry.0 ≡ true) limits
    → IsSide pool side limits
    → All (λ o. before side price o.price ≡ true) (side_view pool limits)
worse_view pool side price [] b s = tt
worse_view pool side price ((best, limit) ∷ limits) (p, b) (n, a, c, s) =
    rw (view_append pool limit.orders (nodes_of limits)) (
      All-append _ (view pool limit.orders) (side_view pool limits) (level limit.orders a)
        (worse_view pool side price limits b s))
  where
    level :
        (nodes : List ℕ)
        → All (Stands pool best side) nodes
        → All (λ o. before side price o.price ≡ true) (view pool nodes)
    level [] a = tt
    level (node ∷ nodes) (q, a) = (rw q.0 p, level nodes a)

before_trans :
    (side : Side) (a b c : ℕ)
    → before side a b ≡ true
    → before side b c ≡ true
    → before side a c ≡ true
before_trans buy a b c p q = ground arith
before_trans sell a b c p q = ground arith

before_total :
    (side : Side) (a b : ℕ) → (a == b) ≡ false → before side a b ≡ false → before side b a ≡ true
before_total buy a b p q = ground arith
before_total sell a b p q = ground arith

All-before :
    (side : Side) (a b : ℕ) (limits : List (ℕ × Limit))
    → before side a b ≡ true
    → All (λ entry. before side b entry.0 ≡ true) limits
    → All (λ entry. before side a entry.0 ≡ true) limits
All-before side a b [] p h = tt
All-before side a b ((c, limit) ∷ limits) p (q, h) =
    (before_trans side a b c p q, All-before side a b limits p h)

-- A node, whose order is written in the pool already.
module _ (pool : List Order) (side : Side) (node : ℕ) (order : Order)
    (own : order_at pool node ≡ order) (its_side : order.side ≡ side) where
  own-Stands : Stands pool order.price side node
  own-Stands = rw own (refl, its_side)

  pub book_order-view :
      (qty : ℕ) (limits : List (ℕ × Limit))
      → IsSide pool side limits
      → side_view pool (book_order side order.price node qty limits)
        ≡ queue_order side order (side_view pool limits)
  unfolding book_order
  book_order-view qty [] s = rw own refl
  book_order-view qty ((p, limit) ∷ limits) (n, a, b, s) =
      let v = view_append pool limit.orders (nodes_of limits) in
      let prices = view_price pool p side limit.orders a in
      elim (Bool-cases (p == order.price)) [
        | inl t ↦
            let same : p ≡ order.price = ground arith in
            let b' = rw same at b in
            let q =
              queue_order-append side order p (view pool limit.orders) (side_view pool limits)
                prices (rw same (before_self side order.price)) in
            let f =
              queue_order-first side order (side_view pool limits)
                (worse_view pool side order.price limits b' s) in
            rw (t, book_order)
              (rw
                (
                  view_append pool (limit.orders ++ (node ∷ [])) (nodes_of limits),
                  view_append pool limit.orders (node ∷ []),
                  own,
                  v,
                )
                (append_assoc (view pool limit.orders) (order ∷ []) (side_view pool limits)
                  ∙ sym (rw f at q)))
        | inr t ↦ elim (Bool-cases (before side order.price p)) [
          | inl q ↦
              let all =
                worse_view pool side order.price ((p, limit) ∷ limits)
                  (q, All-before side order.price p limits q b) (n, a, b, s) in
              rw (t, q, book_order)
                (rw own
                  (sym (queue_order-first side order (side_view pool ((p, limit) ∷ limits)) all)))
          | inr q ↦
              rw (t, q, book_order)
                (rw
                  (
                    v,
                    view_append pool limit.orders
                        (nodes_of (book_order side order.price node qty limits)),
                    book_order-view qty limits s,
                  )
                  (sym (
                    queue_order-append side order p (view pool limit.orders) (side_view pool limits)
                      prices q)))
        ]
      ]

  pub count-book_order :
      (m qty : ℕ) (limits : List (ℕ × Limit))
      → count m (nodes_of (book_order side order.price node qty limits))
        ≡ (if node == m then 1 else 0) + count m (nodes_of limits)
  unfolding book_order
  count-book_order m qty [] = omega arith
  count-book_order m qty ((p, limit) ∷ limits) =
      let r = count-book_order m qty limits in
      let c = count_append m limit.orders (nodes_of limits) in
      let d = count_append m limit.orders (node ∷ []) in
      let e = count_append m (limit.orders ++ (node ∷ [])) (nodes_of limits) in
      let f =
        count_append m limit.orders (nodes_of (book_order side order.price node qty limits)) in
      elim (Bool-cases (p == order.price)) [
        | inl t ↦ rw (t, book_order) (omega arith)
        | inr t ↦ elim (Bool-cases (before side order.price p)) [
          | inl q ↦ rw (t, q, book_order) (omega arith)
          | inr q ↦ rw (t, q, book_order) (omega arith)
        ]
      ]

  book_order-before :
      (best qty : ℕ) (limits : List (ℕ × Limit))
      → before side best order.price ≡ true
      → All (λ entry. before side best entry.0 ≡ true) limits
      → All (λ entry. before side best entry.0 ≡ true) (book_order side order.price node qty limits)
  unfolding book_order
  book_order-before best qty [] l h = (l, tt)
  book_order-before best qty ((p, limit) ∷ limits) l (q, h) = elim (Bool-cases (p == order.price)) [
    | inl t ↦ rw (t, book_order) (q, h)
    | inr t ↦ elim (Bool-cases (before side order.price p)) [
      | inl f ↦ rw (t, f, book_order) (l, (q, h))
      | inr f ↦ rw (t, f, book_order) (q, book_order-before best qty limits l h)
    ]
  ]

  pub book_order-IsSide :
      (qty : ℕ) (limits : List (ℕ × Limit))
      → IsSide pool side limits
      → IsSide pool side (book_order side order.price node qty limits)
  unfolding book_order
  book_order-IsSide qty [] s = (omega arith, (own-Stands, tt), tt, tt)
  book_order-IsSide qty ((p, limit) ∷ limits) (n, a, b, s) = elim (Bool-cases (p == order.price)) [
    | inl t ↦
        let same : p ≡ order.price = ground arith in
        let l = length-append limit.orders (node ∷ []) in
        rw (t, book_order)
          (omega arith, All-append _ limit.orders (node ∷ []) a (rw same own-Stands, tt), b, s)
    | inr t ↦ elim (Bool-cases (before side order.price p)) [
      | inl f ↦
          rw (t, f, book_order)
            (
              omega arith,
              (own-Stands, tt),
              (f, All-before side order.price p limits f b),
              (n, a, b, s),
            )
      | inr f ↦
          let r : (order.price == p) ≡ false = ground arith in
          rw (t, f, book_order)
            (
              n,
              a,
              book_order-before p qty limits (before_total side order.price p r f) b,
              book_order-IsSide qty limits s,
            )
    ]
  ]
