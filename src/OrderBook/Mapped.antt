-- ===== src/OrderBook/Mapped.antt =====
-- The map of the orders leads to resting orders.
use knowledge_acquisition.Prelude.{
  ℕ, ◌+◌, ◌-◌, ◌%◌, ◌<◌, ◌≡◌, ◌≢◌, refl, sym, ap, ◌∙◌, arith, true, false, ◌||◌, some, List, [],
  ◌∷◌, lookup, remove, Distinct, Distinct-remove, lookup-remove, ltb, ◌==◌, Bool-cases, inl, inr,
}
use knowledge_acquisition.OrderBook.{
  Side, Order, Limit, Desk, order_at, min_qty, quantity_mod, retire, Filled, trade, fill, too_far,
  Swept, sweep, after_level,
}
use knowledge_acquisition.OrderBook.Match.{
  count, IsListed, Fixed, Fixed-trade, alone, fill_nothing, IsListed-trade, fill-Fills,
}
use knowledge_acquisition.OrderBook.Sweep.{nodes_of, count_append, IsListed-rest, IsListed-first}

-- Every entry leads to a resting order with its id.
pub record IsMapped (pool : List Order) (order_map : List (ℕ × ℕ)) (resting : ℕ → ℕ) : Type 0 where
  pub distinct : Distinct order_map
  pub leads :
      (id node : ℕ)
      → lookup id order_map ≡ some node
      → ((order_at pool node).id ≡ id) × (0 < resting node)

pub IsMapped-Fixed :
    (pool pool' : List Order) (order_map : List (ℕ × ℕ)) (resting resting' : ℕ → ℕ)
    → ((m : ℕ) → Fixed (order_at pool m) (order_at pool' m))
    → ((m : ℕ) → 0 < resting m → 0 < resting' m)
    → IsMapped pool order_map resting
    → IsMapped pool' order_map resting'
IsMapped-Fixed pool pool' order_map resting resting' f h v = record {
  distinct = v.distinct;
  leads = λ id node e. let (a, b) = v.leads id node e in ((f node).0 ∙ a, h node b);
}

-- A node leaves with the entry of its order.
pub IsMapped-remove :
    (pool : List Order) (order_map : List (ℕ × ℕ)) (resting resting' : ℕ → ℕ) (node : ℕ)
    → ((m : ℕ) → m ≢ node → 0 < resting m → 0 < resting' m)
    → IsMapped pool order_map resting
    → IsMapped pool (remove (order_at pool node).id order_map) resting'
IsMapped-remove pool order_map resting resting' node h v =
    let own = (order_at pool node).id in
    record {
      distinct = Distinct-remove own order_map v.distinct;
      leads = λ id m e.
          let r = lookup-remove own id order_map v.distinct in
          elim (Bool-cases (own == id)) [
            | inl t ↦ let x = sym e ∙ rw t at r in cc
            | inr t ↦
                let (a, b) = v.leads id m (sym (rw t at r) ∙ e) in
                let other : m ≢ node = λ (q : m ≡ node).
                  (let c : own ≡ id = ap (λ (k : ℕ). (order_at pool k).id) (sym q) ∙ a in
                    ground arith) in
                (a, h m other b)
          ];
    }

pub fill-IsMapped :
    (nodes : List ℕ) (volume remaining : ℕ) (desk : Desk) (others : ℕ → ℕ)
    → IsListed desk.pool nodes
    → IsMapped desk.pool desk.order_map (λ m. count m nodes + others m)
    → IsMapped
        (fill nodes volume remaining desk).desk.pool
        (fill nodes volume remaining desk).desk.order_map
        (λ m. count m (fill nodes volume remaining desk).orders + others m)
unfolding fill
fill-IsMapped [] volume remaining desk others h v = v
fill-IsMapped (node ∷ nodes) volume remaining desk others h v = elim (Bool-cases (remaining == 0)) [
  | inl t ↦ rw (t, fill) v
  | inr t ↦
      let order = order_at desk.pool node in
      let (c, l) = alone desk.pool node nodes h in
      elim (Bool-cases (ltb remaining order.qty)) [
        | inl p ↦
            let traded : min_qty remaining order.qty ≡ remaining = ground arith in
            let more : (order.qty - remaining == 0) ≡ false = ground arith in
            let none_left : remaining - remaining ≡ 0 = omega arith in
            rw
              (
                t,
                traded,
                more,
                none_left,
                fill_nothing nodes ((volume + quantity_mod - remaining) % quantity_mod)
                    (trade node remaining desk),
                fill,
              )
              (IsMapped-Fixed desk.pool (trade node remaining desk).pool desk.order_map _ _
                (Fixed-trade desk.pool node remaining l) (λ m k. k) v)
        | inr p ↦
            let traded : min_qty remaining order.qty ≡ order.qty = ground arith in
            let none_left : (order.qty - order.qty == 0) ≡ true = ground arith in
            let gone = retire order.id node (trade node order.qty desk) in
            let w =
              IsMapped-remove desk.pool desk.order_map (λ m. count m (node ∷ nodes) + others m)
                (λ m. count m nodes + others m) node (λ m n k. ground arith) v in
            let u =
              IsMapped-Fixed desk.pool gone.pool gone.order_map (λ m. count m nodes + others m)
                (λ m. count m nodes + others m) (Fixed-trade desk.pool node order.qty l) (λ m k. k)
                w in
            rw (t, traded, none_left, fill)
              (fill-IsMapped nodes ((volume + quantity_mod - order.qty) % quantity_mod)
                (remaining - order.qty) gone others (IsListed-trade node nodes order.qty desk h) u)
      ]
]

after_level-IsMapped :
    (best : ℕ) (limits : List (ℕ × Limit)) (others : ℕ → ℕ) (filled : Filled) (rest : Swept)
    (orders : List ℕ)
    → filled.orders ≡ orders
    → IsMapped filled.desk.pool filled.desk.order_map
        (λ m. count m filled.orders + (count m (nodes_of limits) + others m))
    → (IsMapped filled.desk.pool filled.desk.order_map (λ m. count m (nodes_of limits) + others m)
        → IsMapped rest.desk.pool rest.desk.order_map
            (λ m. count m (nodes_of rest.limits) + others m))
    → IsMapped
        (after_level best limits filled rest orders).desk.pool
        (after_level best limits filled rest orders).desk.order_map
        (λ m. count m (nodes_of (after_level best limits filled rest orders).limits) + others m)
after_level-IsMapped best limits others filled rest [] e w ih = ih (
    IsMapped-Fixed filled.desk.pool filled.desk.pool filled.desk.order_map _ _
      (λ m. (refl, refl, refl)) (λ m k. let c = rw e at k in omega arith) w)
after_level-IsMapped best limits others filled rest (node ∷ nodes) e w ih =
    IsMapped-Fixed filled.desk.pool filled.desk.pool filled.desk.order_map _ _
      (λ m. (refl, refl, refl))
      (λ m k.
        let c = rw e at k in let d = count_append m (node ∷ nodes) (nodes_of limits) in omega arith)
      w

pub sweep-IsMapped :
    (side : Side) (price remaining : ℕ) (limits : List (ℕ × Limit)) (desk : Desk) (others : ℕ → ℕ)
    → IsListed desk.pool (nodes_of limits)
    → IsMapped desk.pool desk.order_map (λ m. count m (nodes_of limits) + others m)
    → IsMapped
        (sweep side price limits remaining desk).desk.pool
        (sweep side price limits remaining desk).desk.order_map
        (λ m. count m (nodes_of (sweep side price limits remaining desk).limits) + others m)
unfolding sweep
sweep-IsMapped side price remaining [] desk others h v = v
sweep-IsMapped side price remaining ((best, limit) ∷ limits) desk others h v =
    elim (Bool-cases ((remaining == 0) || too_far side price best)) [
      | inl t ↦ rw (t, sweep) v
      | inr t ↦
          let filled = fill limit.orders limit.total_volume remaining desk in
          let first = IsListed-first desk.pool limit.orders (nodes_of limits) h in
          let f = fill-Fills limit.orders limit.total_volume remaining desk first in
          let split =
            IsMapped-Fixed desk.pool desk.pool desk.order_map _
              (λ m. count m limit.orders + (count m (nodes_of limits) + others m))
              (λ m. (refl, refl, refl))
              (λ m k. let c = count_append m limit.orders (nodes_of limits) in omega arith) v in
          let w =
            fill-IsMapped limit.orders limit.total_volume remaining desk
              (λ m. count m (nodes_of limits) + others m) first split in
          rw (t, sweep)
            (after_level-IsMapped best limits others filled
              (sweep side price limits filled.remaining filled.desk) filled.orders refl w
              (sweep-IsMapped side price filled.remaining limits filled.desk others (
                IsListed-rest desk.pool filled.desk.pool limit.orders (nodes_of limits) f.sized h)))
    ]
