-- ===== src/OrderBook/Totals.antt =====
-- `Limit::total_volume`, through the matching.
use knowledge_acquisition.Prelude.{
  ℕ, ◌+◌, ◌-◌, ◌%◌, ◌<◌, ◌≤◌, ◌≡◌, refl, arith, true, false, ◌||◌, List, [], ◌∷◌, length, set, All,
  ltb, ◌==◌, ==_refl, Bool-cases, inl, inr,
}
use knowledge_acquisition.OrderBook.{
  Side, Order, Limit, Desk, order_at, min_qty, quantity_mod, retire, Filled, trade, fill, too_far,
  Swept, sweep, after_level,
}
use knowledge_acquisition.OrderBook.Match.{
  count, view, less_qty, order_at-set, view-set, alone, fill_nothing, IsListed, IsListed-trade,
  fill-Fills,
}
use knowledge_acquisition.OrderBook.Sweep.{
  nodes_of, count_append, view_same, IsListed-rest, IsListed-first,
}
use knowledge_acquisition.OrderBook.Volume.{quantity}

-- Every quantity in the pool has 32 bits.
abbrev pub HasWords : List Order → Type 0
HasWords pool = (m : ℕ) → (order_at pool m).qty < quantity_mod

-- The volume of each level is the quantity of its orders, in 32 bits.
abbrev pub HasTotals : List Order → List (ℕ × Limit) → Type 0
HasTotals pool limits =
    All (λ entry. entry.1.total_volume ≡ quantity (view pool entry.1.orders) % quantity_mod) limits

pub HasTotals-same :
    (pool pool' : List Order) (limits : List (ℕ × Limit))
    → ((m : ℕ) → 0 < count m (nodes_of limits) → order_at pool' m ≡ order_at pool m)
    → HasTotals pool limits
    → HasTotals pool' limits
HasTotals-same pool pool' [] h a = tt
HasTotals-same pool pool' ((price, limit) ∷ limits) h (e, a) = (
  rw
      (view_same pool pool' limit.orders
        (λ m l. h m (let c = count_append m limit.orders (nodes_of limits) in omega arith)))
      e,
  HasTotals-same pool pool' limits
      (λ m l. h m (let c = count_append m limit.orders (nodes_of limits) in omega arith)) a,
)

pub HasWords-set :
    (pool : List Order) (node : ℕ) (order : Order)
    → node < length pool
    → order.qty < quantity_mod
    → HasWords pool
    → HasWords (set pool node order)
HasWords-set pool node order l q h m =
    let s = order_at-set pool node m order l in
    elim (Bool-cases (node == m)) [ inl t ↦ rw (rw t at s) q | inr t ↦ rw (rw t at s) (h m) ]

HasWords-trade :
    (desk : Desk) (node traded : ℕ)
    → node < length desk.pool
    → HasWords desk.pool
    → HasWords (trade node traded desk).pool
HasWords-trade desk node traded l h =
    let order = order_at desk.pool node in
    HasWords-set desk.pool node (less_qty traded order) l (let k = h node in omega arith) h

-- A quantity leaves the volume.
pub volume_less :
    (volume q rest traded : ℕ)
    → volume ≡ (q + rest) % quantity_mod
    → traded ≤ q
    → traded < quantity_mod
    → (volume + quantity_mod - traded) % quantity_mod ≡ (q - traded + rest) % quantity_mod
volume_less volume q rest traded e l k = omega arith

-- What the inner loop leaves.
record Totals (filled : Filled) : Type 0 where
  volume : filled.volume ≡ quantity (view filled.desk.pool filled.orders) % quantity_mod
  words : HasWords filled.desk.pool
  less : filled.remaining < quantity_mod

fill-Totals :
    (nodes : List ℕ) (volume remaining : ℕ) (desk : Desk)
    → IsListed desk.pool nodes
    → remaining < quantity_mod
    → HasWords desk.pool
    → volume ≡ quantity (view desk.pool nodes) % quantity_mod
    → Totals (fill nodes volume remaining desk)
unfolding fill
fill-Totals [] volume remaining desk h r w v = record { volume = v; words = w; less = r }
fill-Totals (node ∷ nodes) volume remaining desk h r w v = elim (Bool-cases (remaining == 0)) [
  | inl t ↦ rw (t, fill) (record { volume = v; words = w; less = r })
  | inr t ↦
      let order = order_at desk.pool node in
      let (c, l) = alone desk.pool node nodes h in
      let q = w node in
      elim (Bool-cases (ltb remaining order.qty)) [
        | inl p ↦
            let traded : min_qty remaining order.qty ≡ remaining = ground arith in
            let more : (order.qty - remaining == 0) ≡ false = ground arith in
            let none_left : remaining - remaining ≡ 0 = omega arith in
            let one = ==_refl node in
            let own = rw one at (order_at-set desk.pool node node (less_qty remaining order) l) in
            let others = view-set desk.pool node (less_qty remaining order) nodes l c in
            rw
              (
                t,
                traded,
                more,
                none_left,
                fill_nothing nodes ((volume + quantity_mod - remaining) % quantity_mod)
                    (trade node remaining desk),
                fill,
              )
              (record {
                volume =
                    rw (own, others)
                      (volume_less volume order.qty (quantity (view desk.pool nodes)) remaining v
                        (ground arith) r);
                words = HasWords-trade desk node remaining l w;
                less = omega arith;
              })
        | inr p ↦
            let traded : min_qty remaining order.qty ≡ order.qty = ground arith in
            let none_left : (order.qty - order.qty == 0) ≡ true = ground arith in
            let gone = retire order.id node (trade node order.qty desk) in
            let others = view-set desk.pool node (less_qty order.qty order) nodes l c in
            let nothing : order.qty - order.qty ≡ 0 = omega arith in
            let v' = rw nothing at (
              volume_less volume order.qty (quantity (view desk.pool nodes)) order.qty v
                (omega arith) q) in
            rw (t, traded, none_left, fill)
              (fill-Totals nodes ((volume + quantity_mod - order.qty) % quantity_mod)
                (remaining - order.qty) gone (IsListed-trade node nodes order.qty desk h)
                (omega arith) (HasWords-trade desk node order.qty l w) (rw others (omega arith)))
      ]
]

-- What the outer loop leaves.
pub record Sums (swept : Swept) : Type 0 where
  pub totals : HasTotals swept.desk.pool swept.limits
  pub words : HasWords swept.desk.pool
  pub less : swept.remaining < quantity_mod

after_level-Sums :
    (best : ℕ) (limits : List (ℕ × Limit)) (filled : Filled) (rest : Swept) (orders : List ℕ)
    → filled.orders ≡ orders
    → Totals filled
    → HasTotals filled.desk.pool limits
    → Sums rest
    → Sums (after_level best limits filled rest orders)
after_level-Sums best limits filled rest [] e f a s = s
after_level-Sums best limits filled rest (node ∷ nodes) e f a s = record {
  totals = (rw e at f.volume, a);
  words = f.words;
  less = f.less;
}

pub sweep-Sums :
    (side : Side) (price remaining : ℕ) (limits : List (ℕ × Limit)) (desk : Desk)
    → IsListed desk.pool (nodes_of limits)
    → remaining < quantity_mod
    → HasWords desk.pool
    → HasTotals desk.pool limits
    → Sums (sweep side price limits remaining desk)
unfolding sweep
sweep-Sums side price remaining [] desk h r w a = record { totals = tt; words = w; less = r }
sweep-Sums side price remaining ((best, limit) ∷ limits) desk h r w (e, a) =
    elim (Bool-cases ((remaining == 0) || too_far side price best)) [
      | inl t ↦ rw (t, sweep) (record { totals = (e, a); words = w; less = r })
      | inr t ↦
          let filled = fill limit.orders limit.total_volume remaining desk in
          let first = IsListed-first desk.pool limit.orders (nodes_of limits) h in
          let f = fill-Fills limit.orders limit.total_volume remaining desk first in
          let s = fill-Totals limit.orders limit.total_volume remaining desk first r w e in
          let a' =
            HasTotals-same desk.pool filled.desk.pool limits
              (λ m l. f.same m (
                let c = count_append m limit.orders (nodes_of limits) in
                let (k, i) = h m in omega arith))
              a in
          rw (t, sweep)
            (after_level-Sums best limits filled
              (sweep side price limits filled.remaining filled.desk) filled.orders refl s a'
              (sweep-Sums side price filled.remaining limits filled.desk
                (IsListed-rest desk.pool filled.desk.pool limit.orders (nodes_of limits) f.sized h)
                s.less s.words a'))
    ]
