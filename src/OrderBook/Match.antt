-- ===== src/OrderBook/Match.antt =====
-- The matching, on the orders themselves.
use knowledge_acquisition.Prelude.{
  ℕ, zero, suc, ◌+◌, ◌-◌, ◌%◌, ◌<◌, ◌≤◌, ◌≡◌, refl, ap, ◌∙◌, arith, true, false, List, [], ◌∷◌,
  length, length-set, set, total, All, ltb, ◌==◌, ==_refl, Bool-cases, inl, inr, ◌⊎◌, if◌then◌else◌,
}
use knowledge_acquisition.OrderBook.{
  Side, Order, Desk, order_at, min_qty, retire, Filled, trade, fill, quantity_mod,
}

-- How often a node is listed.
abbrev pub count : ℕ → List ℕ → ℕ
count n nodes = total (λ m. if m == n then 1 else 0) nodes

abbrev pub view : List Order → List ℕ → List Order
view pool [] = []
view pool (node ∷ nodes) = order_at pool node ∷ view pool nodes

abbrev pub less_qty : ℕ → Order → Order
less_qty traded order = record order { qty = order.qty - traded }

-- The best orders give what they have, and the last of them keeps the rest.
abbrev pub take_all : ℕ → List Order → List Order × ℕ
take_all remaining [] = ([], remaining)
take_all remaining (order ∷ orders) =
    let rest = take_all (remaining - order.qty) orders in
    if remaining == 0
    then (order ∷ orders, 0)
    else if ltb remaining order.qty
    then (less_qty remaining order ∷ orders, 0)
    else rest

pub order_at-set :
    (pool : List Order) (n m : ℕ) (order : Order)
    → n < length pool
    → order_at (set pool n order) m ≡ (if n == m then order else order_at pool m)
order_at-set [] n m order l = absurd (omega arith)
order_at-set (x ∷ pool) zero zero order l = refl
order_at-set (x ∷ pool) zero (suc m) order l = ground arith
order_at-set (x ∷ pool) (suc n) zero order l = ground arith
order_at-set (x ∷ pool) (suc n) (suc m) order l =
    ground (arith, order_at-set pool n m order (omega arith))

-- An order that is not listed does not matter.
pub view-set :
    (pool : List Order) (n : ℕ) (order : Order) (nodes : List ℕ)
    → n < length pool
    → count n nodes ≡ 0
    → view (set pool n order) nodes ≡ view pool nodes
view-set pool n order [] l c = refl
view-set pool n order (node ∷ nodes) l c =
    let s = order_at-set pool n node order l in
    let f : (n == node) ≡ false = ground arith in
    let e : order_at (set pool n order) node ≡ order_at pool node = rw f at s in
    rw (e, view-set pool n order nodes l (ground arith)) refl

-- Only the quantity of an order changes.
abbrev pub Fixed : Order → Order → Type 0
Fixed a b = (b.id ≡ a.id) × (b.price ≡ a.price) × (b.side ≡ a.side)

pub Fixed-trans : (a b c : Order) → Fixed a b → Fixed b c → Fixed a c
Fixed-trans a b c (x, y, z) (u, v, w) = (u ∙ x, v ∙ y, w ∙ z)

-- An order of this side at this price.
abbrev pub Stands : List Order → ℕ → Side → ℕ → Type 0
Stands pool price side node =
    ((order_at pool node).price ≡ price) × ((order_at pool node).side ≡ side)

pub Stands-Fixed :
    (pool pool' : List Order) (price : ℕ) (side : Side) (node : ℕ)
    → Fixed (order_at pool node) (order_at pool' node)
    → Stands pool price side node
    → Stands pool' price side node
Stands-Fixed pool pool' price side node (x, y, z) (p, q) = (y ∙ p, z ∙ q)

pub All-Stands :
    (pool pool' : List Order) (price : ℕ) (side : Side) (nodes : List ℕ)
    → ((m : ℕ) → Fixed (order_at pool m) (order_at pool' m))
    → All (Stands pool price side) nodes
    → All (Stands pool' price side) nodes
All-Stands pool pool' price side [] f a = tt
All-Stands pool pool' price side (node ∷ nodes) f (b, a) =
    (Stands-Fixed pool pool' price side node (f node) b, All-Stands pool pool' price side nodes f a)

-- What the inner loop does to the nodes it is given.
pub record Fills (nodes : List ℕ) (remaining : ℕ) (desk : Desk) (filled : Filled) : Type 0 where
  pub left :
      (view filled.desk.pool filled.orders, filled.remaining)
      ≡ take_all remaining (view desk.pool nodes)
  pub same : (m : ℕ) → count m nodes ≡ 0 → order_at filled.desk.pool m ≡ order_at desk.pool m
  pub sized : length filled.desk.pool ≡ length desk.pool
  pub kept :
      (m : ℕ)
      → count m filled.desk.free_list + count m filled.orders
        ≡ count m desk.free_list + count m nodes
  pub fixed : (m : ℕ) → Fixed (order_at desk.pool m) (order_at filled.desk.pool m)
  pub stands :
      (price : ℕ) (side : Side)
      → All (Stands desk.pool price side) nodes
      → All (Stands filled.desk.pool price side) filled.orders
  pub spent : (filled.orders ≡ []) ⊎ (filled.remaining ≡ 0)

-- Each node is listed once, and is one of the pool.
abbrev pub IsListed : List Order → List ℕ → Type 0
IsListed pool nodes = (m : ℕ) → (count m nodes ≤ 1) × (0 < count m nodes → m < length pool)

pub Fixed-trade :
    (pool : List Order) (node traded : ℕ)
    → node < length pool
    → (m : ℕ)
    → Fixed (order_at pool m) (order_at (set pool node (less_qty traded (order_at pool node))) m)
Fixed-trade pool node traded l m = elim (Bool-cases (node == m)) [
  | inl t ↦
      let own : node ≡ m = ground arith in
      let s = order_at-set pool node m (less_qty traded (order_at pool node)) l in
      let e = rw t at s in
      (
        ap (λ (o : Order). o.id) e ∙ ap (λ (k : ℕ). (order_at pool k).id) own,
        ap (λ (o : Order). o.price) e ∙ ap (λ (k : ℕ). (order_at pool k).price) own,
        ap (λ (o : Order). o.side) e ∙ ap (λ (k : ℕ). (order_at pool k).side) own,
      )
  | inr t ↦
      let s = order_at-set pool node m (less_qty traded (order_at pool node)) l in
      let e = rw t at s in
      (ap (λ (o : Order). o.id) e, ap (λ (o : Order). o.price) e, ap (λ (o : Order). o.side) e)
]

pub IsListed-trade :
    (node : ℕ) (nodes : List ℕ) (traded : ℕ) (desk : Desk)
    → IsListed desk.pool (node ∷ nodes)
    → IsListed (trade node traded desk).pool nodes
IsListed-trade node nodes traded desk h m =
    let order = order_at desk.pool node in
    let s = length-set desk.pool node (record order { qty = order.qty - traded }) in
    let (a, b) = h m in (ground arith, λ c. rw s (b (ground arith)))

pub alone :
    (pool : List Order) (node : ℕ) (nodes : List ℕ)
    → IsListed pool (node ∷ nodes)
    → (count node nodes ≡ 0) × (node < length pool)
alone pool node nodes h =
    let (a, b) = h node in
    let t = ==_refl node in
    let one : count node (node ∷ nodes) ≡ suc (count node nodes) = ground arith in
    (ground arith, b (omega arith))

pub fill_nothing :
    (nodes : List ℕ) (volume : ℕ) (desk : Desk)
    → fill nodes volume 0 desk
      ≡ record { orders = nodes; volume = volume; remaining = 0; desk = desk }
unfolding fill
fill_nothing [] volume desk = refl
fill_nothing (node ∷ nodes) volume desk = refl

-- The order is filled, and the matching goes on.
gone_order :
    (node : ℕ) (nodes : List ℕ) (remaining : ℕ) (desk : Desk) (filled : Filled)
    → IsListed desk.pool (node ∷ nodes)
    → (remaining == 0) ≡ false
    → ltb remaining (order_at desk.pool node).qty ≡ false
    → Fills nodes
        (remaining - (order_at desk.pool node).qty)
        (retire (order_at desk.pool node).id node (trade node (order_at desk.pool node).qty desk))
        filled
    → Fills (node ∷ nodes) remaining desk filled
gone_order node nodes remaining desk filled h t p r =
    let order = order_at desk.pool node in
    let (c, l) = alone desk.pool node nodes h in
    let new = record order { qty = order.qty - order.qty } in
    let v = view-set desk.pool node new nodes l c in
    record {
      left = r.left ∙ rw (v, t, p, take_all) refl;
      same = λ m z.
          let f : (node == m) ≡ false = ground arith in
          let s = order_at-set desk.pool node m new l in r.same m (ground arith) ∙ rw f at s;
      sized = r.sized ∙ length-set desk.pool node new;
      kept = λ m. let k = r.kept m in omega arith;
      fixed = λ m.
          Fixed-trans (order_at desk.pool m) (order_at (set desk.pool node new) m)
            (order_at filled.desk.pool m) (Fixed-trade desk.pool node order.qty l m) (r.fixed m);
      stands = λ price side a. r.stands price side (
          All-Stands desk.pool (set desk.pool node new) price side nodes
            (Fixed-trade desk.pool node order.qty l) a.1);
      spent = r.spent;
    }

-- The order keeps what is not asked for.
kept_order :
    (node : ℕ) (nodes : List ℕ) (volume remaining : ℕ) (desk : Desk)
    → IsListed desk.pool (node ∷ nodes)
    → (remaining == 0) ≡ false
    → ltb remaining (order_at desk.pool node).qty ≡ true
    → Fills (node ∷ nodes) remaining desk (fill (node ∷ nodes) volume remaining desk)
unfolding fill
kept_order node nodes volume remaining desk h t p =
    let order = order_at desk.pool node in
    let (c, l) = alone desk.pool node nodes h in
    let traded : min_qty remaining order.qty ≡ remaining = ground arith in
    let more : (order.qty - remaining == 0) ≡ false = ground arith in
    let none_left : remaining - remaining ≡ 0 = omega arith in
    let new = record order { qty = order.qty - remaining } in
    let v = view-set desk.pool node new nodes l c in
    let here = rw (==_refl node) at (order_at-set desk.pool node node new l) in
    rw
      (
        t,
        traded,
        more,
        none_left,
        fill_nothing nodes ((volume + quantity_mod - remaining) % quantity_mod)
            (trade node remaining desk),
        fill,
      )
      (record {
        left = rw (here, v, t, p, take_all) refl;
        same = λ m z.
            let f : (node == m) ≡ false = ground arith in
            let s = order_at-set desk.pool node m new l in rw f at s;
        sized = length-set desk.pool node new;
        kept = λ m. refl;
        fixed = Fixed-trade desk.pool node remaining l;
        stands = λ price side a.
            All-Stands desk.pool (set desk.pool node new) price side (node ∷ nodes)
              (Fixed-trade desk.pool node remaining l) a;
        spent = inr refl;
      })

pub fill-Fills :
    (nodes : List ℕ) (volume remaining : ℕ) (desk : Desk)
    → IsListed desk.pool nodes
    → Fills nodes remaining desk (fill nodes volume remaining desk)
unfolding fill
fill-Fills [] volume remaining desk h = record {
  left = refl;
  same = λ m c. refl;
  sized = refl;
  kept = λ m. omega arith;
  fixed = λ m. (refl, refl, refl);
  stands = λ price side a. a;
  spent = inl refl;
}
fill-Fills (node ∷ nodes) volume remaining desk h = elim (Bool-cases (remaining == 0)) [
  | inl t ↦
      let z : remaining ≡ 0 = ground arith in
      rw (t, fill)
        (record {
          left = rw (t, take_all) (rw z refl);
          same = λ m c. refl;
          sized = refl;
          kept = λ m. refl;
          fixed = λ m. (refl, refl, refl);
          stands = λ price side a. a;
          spent = inr z;
        })
  | inr t ↦ elim (Bool-cases (ltb remaining (order_at desk.pool node).qty)) [
    | inl p ↦ kept_order node nodes volume remaining desk h t p
    | inr p ↦
        let order = order_at desk.pool node in
        let traded : min_qty remaining order.qty ≡ order.qty = ground arith in
        let none_left : (order.qty - order.qty == 0) ≡ true = ground arith in
        let desk' = retire order.id node (trade node order.qty desk) in
        let l : node < length desk.pool = (h node).1 (ground arith) in
        let r =
          fill-Fills nodes ((volume + quantity_mod - order.qty) % quantity_mod)
            (remaining - order.qty) desk' (IsListed-trade node nodes order.qty desk h) in
        rw (t, traded, none_left, fill) (gone_order node nodes remaining desk _ h t p r)
  ]
]
