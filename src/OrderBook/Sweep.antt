-- ===== src/OrderBook/Sweep.antt =====
-- The sweep through the limits of a side.
use knowledge_acquisition.Prelude.{
  ℕ, ◌+◌, ◌-◌, ◌<◌, ◌≡◌, refl, sym, ap, ◌∙◌, arith, true, false, ◌||◌, List, [], ◌∷◌, ◌++◌, length,
  total-append, All, ltb, ◌==◌, ==_refl, Bool-cases, inl, inr, if◌then◌else◌,
}
use knowledge_acquisition.OrderBook.{
  Side, Order, Limit, Desk, order_at, Filled, fill, too_far, Swept, sweep, after_level, before,
}
use knowledge_acquisition.OrderBook.Match.{
  count, view, less_qty, take_all, IsListed, Fixed, Stands, All-Stands, Fills, fill-Fills,
  Fixed-trans,
}

abbrev pub nodes_of : List (ℕ × Limit) → List ℕ
nodes_of [] = []
nodes_of ((price, limit) ∷ limits) = limit.orders ++ nodes_of limits

-- The matching on a queue of orders: as long as something is asked for and the price is right, the
-- first order gives what it has.
abbrev pub take_upto : Side → ℕ → ℕ → List Order → List Order × ℕ
take_upto side price remaining [] = ([], remaining)
take_upto side price remaining (order ∷ orders) =
    let rest = take_upto side price (remaining - order.qty) orders in
    if (remaining == 0) || too_far side price order.price
    then (order ∷ orders, remaining)
    else if ltb remaining order.qty
    then (less_qty remaining order ∷ orders, 0)
    else rest

abbrev then_upto : Side → ℕ → List Order → List Order × ℕ → List Order × ℕ
then_upto side price rest ([], remaining) = take_upto side price remaining rest
then_upto side price rest (order ∷ orders, remaining) = (order ∷ (orders ++ rest), remaining)

-- A level of the book.
take_upto-append :
    (side : Side) (price best remaining : ℕ) (orders rest : List Order)
    → All (λ o. o.price ≡ best) orders
    → too_far side price best ≡ false
    → take_upto side price remaining (orders ++ rest)
      ≡ then_upto side price rest (take_all remaining orders)
take_upto-append side price best remaining [] rest a f = refl
take_upto-append side price best remaining (order ∷ orders) rest (p, a) f =
    let g : too_far side price order.price ≡ false = rw p f in
    elim (Bool-cases (remaining == 0)) [
      | inl t ↦ let z : remaining ≡ 0 = ground arith in rw (t, take_upto, take_all) (rw z refl)
      | inr t ↦ elim (Bool-cases (ltb remaining order.qty)) [
        | inl q ↦ rw (t, g, q, take_upto, take_all) refl
        | inr q ↦
            rw (t, g, q, take_upto, take_all)
              (take_upto-append side price best (remaining - order.qty) orders rest a f)
      ]
    ]

pub view_append :
    (pool : List Order) (xs ys : List ℕ) → view pool (xs ++ ys) ≡ view pool xs ++ view pool ys
view_append pool [] ys = refl
view_append pool (x ∷ xs) ys = ap (◌∷◌ (order_at pool x)) (view_append pool xs ys)

pub view_price :
    (pool : List Order) (price : ℕ) (side : Side) (nodes : List ℕ)
    → All (Stands pool price side) nodes
    → All (λ o. o.price ≡ price) (view pool nodes)
view_price pool price side [] a = tt
view_price pool price side (node ∷ nodes) (p, a) = (p.0, view_price pool price side nodes a)

pub view_same :
    (pool pool' : List Order) (nodes : List ℕ)
    → ((m : ℕ) → 0 < count m nodes → order_at pool' m ≡ order_at pool m)
    → view pool' nodes ≡ view pool nodes
view_same pool pool' [] h = refl
view_same pool pool' (node ∷ nodes) h =
    let t = ==_refl node in
    rw (h node (ground arith), view_same pool pool' nodes (λ m l. h m (ground arith))) refl

-- Every limit before the others is the better one, and its orders stand at its price.
abbrev pub IsSide : List Order → Side → List (ℕ × Limit) → Type 0
IsSide pool side [] = Unit {0}
IsSide pool side ((price, limit) ∷ limits) =
    (0 < length limit.orders)
    × All (Stands pool price side) limit.orders
    × All (λ entry. before side price entry.0 ≡ true) limits
    × IsSide pool side limits

pub IsSide-Fixed :
    (pool pool' : List Order) (side : Side) (limits : List (ℕ × Limit))
    → ((m : ℕ) → Fixed (order_at pool m) (order_at pool' m))
    → IsSide pool side limits
    → IsSide pool' side limits
IsSide-Fixed pool pool' side [] f s = tt
IsSide-Fixed pool pool' side ((price, limit) ∷ limits) f (n, a, b, s) = (
  n,
  All-Stands pool pool' price side limit.orders f a,
  b,
  IsSide-Fixed pool pool' side limits f s,
)

pub count_append : (m : ℕ) (xs ys : List ℕ) → count m (xs ++ ys) ≡ count m xs + count m ys
count_append m xs ys = total-append _ xs ys

-- What the outer loop does to the limits of the other side.
pub record Sweeps (other side : Side) (price remaining : ℕ) (limits : List (ℕ × Limit))
    (desk : Desk) (swept : Swept) : Type 0 where
  pub left :
      (view swept.desk.pool (nodes_of swept.limits), swept.remaining)
      ≡ take_upto side price remaining (view desk.pool (nodes_of limits))
  pub same :
      (m : ℕ) → count m (nodes_of limits) ≡ 0 → order_at swept.desk.pool m ≡ order_at desk.pool m
  pub sized : length swept.desk.pool ≡ length desk.pool
  pub kept :
      (m : ℕ)
      → count m swept.desk.free_list + count m (nodes_of swept.limits)
        ≡ count m desk.free_list + count m (nodes_of limits)
  pub fixed : (m : ℕ) → Fixed (order_at desk.pool m) (order_at swept.desk.pool m)
  pub sides : IsSide swept.desk.pool other swept.limits

-- Nothing is asked for, or the best price is not right.
stop_upto :
    (side : Side) (price best remaining : ℕ) (orders rest : List Order)
    → 0 < length orders
    → All (λ o. o.price ≡ best) orders
    → ((remaining == 0) || too_far side price best) ≡ true
    → take_upto side price remaining (orders ++ rest) ≡ (orders ++ rest, remaining)
stop_upto side price best remaining [] rest l a t = absurd (omega arith)
stop_upto side price best remaining (order ∷ orders) rest l (p, a) t = rw (p, t, take_upto) refl

pub length-view : (pool : List Order) (nodes : List ℕ) → length (view pool nodes) ≡ length nodes
length-view pool [] = refl
length-view pool (node ∷ nodes) = omega (arith, length-view pool nodes)

pub IsListed-rest :
    (pool pool' : List Order) (xs ys : List ℕ)
    → length pool' ≡ length pool
    → IsListed pool (xs ++ ys)
    → IsListed pool' ys
IsListed-rest pool pool' xs ys e h m =
    let c = count_append m xs ys in let (a, b) = h m in (omega arith, λ l. rw e (b (omega arith)))

pub IsListed-first :
    (pool : List Order) (xs ys : List ℕ) → IsListed pool (xs ++ ys) → IsListed pool xs
IsListed-first pool xs ys h m =
    let c = count_append m xs ys in let (a, b) = h m in (omega arith, λ l. b (omega arith))

module _ (other side : Side) (price : ℕ) where
  -- The first limit is matched, and `orders` are left of it.
  after_fill :
      (best remaining : ℕ) (limit : Limit) (limits : List (ℕ × Limit)) (desk : Desk)
      (filled : Filled) (rest : Swept) (orders : List ℕ)
      → IsSide desk.pool other ((best, limit) ∷ limits)
      → IsListed desk.pool (limit.orders ++ nodes_of limits)
      → too_far side price best ≡ false
      → Fills limit.orders remaining desk filled
      → filled.orders ≡ orders
      → Sweeps other side price filled.remaining limits filled.desk rest
      → Sweeps other side price remaining
          ((best, limit) ∷ limits)
          desk
          (after_level best limits filled rest orders)
  after_fill best remaining limit limits desk filled rest [] (n, a, b, s) h t f e r =
      let later =
        view_same desk.pool filled.desk.pool (nodes_of limits) (λ m l. f.same m (apart m l)) in
      let step =
        take_upto-append side price best remaining (view desk.pool limit.orders)
          (view desk.pool (nodes_of limits)) (view_price desk.pool best other limit.orders a) t in
      let mid = rw e at f.left in
      record {
        left =
            r.left
            ∙ rw later (
                sym (
                  rw (view_append desk.pool limit.orders (nodes_of limits))
                    (step ∙ rw (← mid) refl)));
        same = λ m z.
            let c = count_append m limit.orders (nodes_of limits) in
            r.same m (omega arith) ∙ f.same m (omega arith);
        sized = r.sized ∙ f.sized;
        kept = λ m.
            let c = count_append m limit.orders (nodes_of limits) in
            let x = r.kept m in let y = rw e at (f.kept m) in omega arith;
        fixed = λ m.
            Fixed-trans (order_at desk.pool m) (order_at filled.desk.pool m)
              (order_at rest.desk.pool m) (f.fixed m) (r.fixed m);
        sides = r.sides;
      }
    where
      apart : (m : ℕ) → 0 < count m (nodes_of limits) → count m limit.orders ≡ 0
      apart m l =
          let c = count_append m limit.orders (nodes_of limits) in let (x, y) = h m in omega arith
  after_fill best remaining limit limits desk filled rest (node ∷ nodes) (n, a, b, s) h t f e r =
      let later =
        view_same desk.pool filled.desk.pool (nodes_of limits) (λ m l. f.same m (apart m l)) in
      let step =
        take_upto-append side price best remaining (view desk.pool limit.orders)
          (view desk.pool (nodes_of limits)) (view_price desk.pool best other limit.orders a) t in
      let mid = rw e at f.left in
      record {
        left =
            rw
              (
                view_append desk.pool limit.orders (nodes_of limits),
                view_append filled.desk.pool nodes (nodes_of limits),
                later,
              )
              (sym (step ∙ rw (← mid) refl));
        same =
            λ m z. let c = count_append m limit.orders (nodes_of limits) in f.same m (omega arith);
        sized = f.sized;
        kept = λ m.
            let c = count_append m limit.orders (nodes_of limits) in
            let d = count_append m (node ∷ nodes) (nodes_of limits) in
            let y = rw e at (f.kept m) in omega arith;
        fixed = f.fixed;
        sides = (
          omega arith,
          rw e at (f.stands best other a),
          b,
          IsSide-Fixed desk.pool filled.desk.pool other limits f.fixed s,
        );
      }
    where
      apart : (m : ℕ) → 0 < count m (nodes_of limits) → count m limit.orders ≡ 0
      apart m l =
          let c = count_append m limit.orders (nodes_of limits) in let (x, y) = h m in omega arith

  pub sweep-Sweeps :
      (remaining : ℕ) (limits : List (ℕ × Limit)) (desk : Desk)
      → IsSide desk.pool other limits
      → IsListed desk.pool (nodes_of limits)
      → Sweeps other side price remaining limits desk (sweep side price limits remaining desk)
  unfolding sweep
  sweep-Sweeps remaining [] desk s h = record {
    left = refl;
    same = λ m c. refl;
    sized = refl;
    kept = λ m. refl;
    fixed = λ m. (refl, refl, refl);
    sides = tt;
  }
  sweep-Sweeps remaining ((best, limit) ∷ limits) desk (n, a, b, s) h =
      elim (Bool-cases ((remaining == 0) || too_far side price best)) [
        | inl t ↦
            let v = view_append desk.pool limit.orders (nodes_of limits) in
            let l = length-view desk.pool limit.orders in
            rw (t, sweep)
              (record {
                left = rw v (
                    sym (
                      stop_upto side price best remaining (view desk.pool limit.orders)
                        (view desk.pool (nodes_of limits)) (omega arith)
                        (view_price desk.pool best other limit.orders a) t));
                same = λ m c. refl;
                sized = refl;
                kept = λ m. refl;
                fixed = λ m. (refl, refl, refl);
                sides = (n, a, b, s);
              })
        | inr t ↦
            let filled = fill limit.orders limit.total_volume remaining desk in
            let f =
              fill-Fills limit.orders limit.total_volume remaining desk
                (IsListed-first desk.pool limit.orders (nodes_of limits) h) in
            let r =
              sweep-Sweeps filled.remaining limits filled.desk
                (IsSide-Fixed desk.pool filled.desk.pool other limits f.fixed s)
                (IsListed-rest desk.pool filled.desk.pool limit.orders (nodes_of limits) f.sized
                  h) in
            let near : too_far side price best ≡ false = ground arith in
            rw (t, sweep)
              (after_fill best remaining limit limits desk filled
                (sweep side price limits filled.remaining filled.desk) filled.orders (n, a, b, s) h
                near f refl r)
      ]
