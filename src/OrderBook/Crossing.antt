-- ===== src/OrderBook/Crossing.antt =====
-- The prices of the two sides.
use knowledge_acquisition.Prelude.{
  ℕ, ◌-◌, ◌<◌, ◌≡◌, sym, subst, arith, Bool, true, false, ◌||◌, not, List, [], ◌∷◌, ◌++◌, All,
  All-append, ltb, ◌==◌, Bool-cases, inl, inr,
}
use knowledge_acquisition.OrderBook.{
  Side, buy, sell, Order, Limit, OrderBook, before, too_far, match_order, limit_order,
}
use knowledge_acquisition.OrderBook.Match.{view}
use knowledge_acquisition.OrderBook.Sweep.{nodes_of, IsSide, take_upto, view_append, view_price}
use knowledge_acquisition.OrderBook.Rest.{queue_order, side_view, worse_view, before_self}
use knowledge_acquisition.OrderBook.Book.{
  IsBook, asks, bids, queues, rest_queue, trade_queues, has_room, limit_order-trade_queues,
}
use knowledge_acquisition.OrderBook.Cancel.{Loses}
use knowledge_acquisition.OrderBook.Exchange.{LosesSide}

-- No order is better than one before it.
abbrev pub Ordered : Side → List Order → Type 0
Ordered side [] = Unit {0}
Ordered side (order ∷ orders) =
    All (λ o. before side o.price order.price ≡ false) orders × Ordered side orders

-- Every bid is below every ask.
abbrev pub Uncrossed : List Order × List Order → Type 0
Uncrossed (sells, buys) = All (λ b. All (λ a. b.price < a.price) sells) buys

before_asym : (side : Side) (a b : ℕ) → before side a b ≡ true → before side b a ≡ false
before_asym buy a b e = ground arith
before_asym sell a b e = ground arith

All-not_better :
    (side : Side) (price : ℕ) (orders : List Order)
    → All (λ o. before side price o.price ≡ true) orders
    → All (λ o. before side o.price price ≡ false) orders
All-not_better side price [] a = tt
All-not_better side price (o ∷ orders) (p, a) =
    (before_asym side price o.price p, All-not_better side price orders a)

-- A level, and the orders of the levels behind it.
Ordered-append :
    (side : Side) (price : ℕ) (xs ys : List Order)
    → All (λ o. o.price ≡ price) xs
    → All (λ o. before side price o.price ≡ true) ys
    → Ordered side ys
    → Ordered side (xs ++ ys)
Ordered-append side price [] ys a b o = o
Ordered-append side price (x ∷ xs) ys (e, a) b o = (
  All-append _ xs ys (level xs a) (All-not_better side x.price ys (rw e b)),
  Ordered-append side price xs ys a b o,
)
  where
    level :
        (xs : List Order)
        → All (λ o. o.price ≡ price) xs
        → All (λ o. before side o.price x.price ≡ false) xs
    level [] a = tt
    level (y ∷ xs) (f, a) = (rw (f, e) (before_self side price), level xs a)

pub IsSide-Ordered :
    (pool : List Order) (side : Side) (limits : List (ℕ × Limit))
    → IsSide pool side limits
    → Ordered side (side_view pool limits)
IsSide-Ordered pool side [] s = tt
IsSide-Ordered pool side ((price, limit) ∷ limits) (n, a, b, s) =
    rw (view_append pool limit.orders (nodes_of limits)) (
      Ordered-append side price (view pool limit.orders) (side_view pool limits)
        (view_price pool price side limit.orders a) (worse_view pool side price limits b s)
        (IsSide-Ordered pool side limits s))

abbrev pub other_side : Side → Side
other_side buy = sell
other_side sell = buy

-- An order that is no better than one that is too far is too far, too.
too_far_behind :
    (side : Side) (price a b : ℕ)
    → too_far side price a ≡ true
    → before (other_side side) b a ≡ false
    → too_far side price b ≡ true
too_far_behind buy price a b f e = ground arith
too_far_behind sell price a b f e = ground arith

All-too_far :
    (side : Side) (price best : ℕ) (orders : List Order)
    → too_far side price best ≡ true
    → All (λ o. before (other_side side) o.price best ≡ false) orders
    → All (λ o. too_far side price o.price ≡ true) orders
All-too_far side price best [] f a = tt
All-too_far side price best (o ∷ orders) f (p, a) =
    (too_far_behind side price best o.price f p, All-too_far side price best orders f a)

-- A matching that is left with something has only prices that are too far before it.
take_upto-too_far :
    (side : Side) (price remaining : ℕ) (orders : List Order)
    → Ordered (other_side side) orders
    → 0 < (take_upto side price remaining orders).1
    → All (λ o. too_far side price o.price ≡ true) (take_upto side price remaining orders).0
take_upto-too_far side price remaining [] o l = tt
take_upto-too_far side price remaining (order ∷ orders) (a, o) l =
    elim (Bool-cases ((remaining == 0) || too_far side price order.price)) [
      | inl t ↦
          let more : 0 < remaining = rw (t, take_upto) at l in
          let far : too_far side price order.price ≡ true = ground arith in
          rw (t, take_upto) (far, All-too_far side price order.price orders far a)
      | inr t ↦ elim (Bool-cases (ltb remaining order.qty)) [
        | inl q ↦ let k : 0 < 0 = rw (t, q, take_upto) at l in absurd (omega arith)
        | inr q ↦
            let k = rw (t, q, take_upto) at l in
            rw (t, q, take_upto) (take_upto-too_far side price (remaining - order.qty) orders o k)
      ]
    ]

-- The matching takes no new price to a side.
take_upto-prices :
    (P : ℕ → Type 0) (side : Side) (price remaining : ℕ) (orders : List Order)
    → All (λ o. P o.price) orders
    → All (λ o. P o.price) (take_upto side price remaining orders).0
take_upto-prices P side price remaining [] a = tt
take_upto-prices P side price remaining (order ∷ orders) (p, a) =
    elim (Bool-cases ((remaining == 0) || too_far side price order.price)) [
      | inl t ↦ rw (t, take_upto) (p, a)
      | inr t ↦ elim (Bool-cases (ltb remaining order.qty)) [
        | inl q ↦ rw (t, q, take_upto) (p, a)
        | inr q ↦
            rw (t, q, take_upto) (take_upto-prices P side price (remaining - order.qty) orders a)
      ]
    ]

All-queue_order :
    (P : Order → Type 0) (side : Side) (order : Order) (orders : List Order)
    → P order
    → All P orders
    → All P (queue_order side order orders)
All-queue_order P side order [] p a = (p, tt)
All-queue_order P side order (o ∷ orders) p (q, a) =
    elim (Bool-cases (before side order.price o.price)) [
      | inl t ↦ rw (t, queue_order) (p, (q, a))
      | inr t ↦ rw (t, queue_order) (q, All-queue_order P side order orders p a)
    ]

All-rest_queue :
    (P : Order → Type 0) (side : Side) (room : Bool) (order : Order) (orders : List Order)
    → (0 < order.qty → P order)
    → All P orders
    → All P (rest_queue side room order orders)
All-rest_queue P side room order orders p a = elim (Bool-cases ((order.qty == 0) || not room)) [
  | inl t ↦ rw (t, rest_queue) a
  | inr t ↦ rw (t, rest_queue) (All-queue_order P side order orders (p (ground arith)) a)
]

-- A price below every ask, and an ask above every bid.
below :
    (price : ℕ) (orders : List Order)
    → All (λ o. too_far buy price o.price ≡ true) orders
    → All (λ o. price < o.price) orders
below price [] a = tt
below price (o ∷ orders) (p, a) = (ground arith, below price orders a)

Uncrossed-ask :
    (side : Side) (room : Bool) (order : Order) (sells buys : List Order)
    → (0 < order.qty → All (λ o. too_far sell order.price o.price ≡ true) buys)
    → Uncrossed (sells, buys)
    → Uncrossed (rest_queue side room order sells, buys)
Uncrossed-ask side room order sells [] f u = tt
Uncrossed-ask side room order sells (b ∷ buys) f (p, u) = (
  All-rest_queue (λ a. b.price < a.price) side room order sells
      (λ l. let k = (f l).0 in ground arith) p,
  Uncrossed-ask side room order sells buys (λ l. (f l).1) u,
)

Uncrossed-taken :
    (price qty : ℕ) (sells buys : List Order)
    → Uncrossed (sells, buys)
    → Uncrossed ((take_upto buy price qty sells).0, buys)
Uncrossed-taken price qty sells [] u = tt
Uncrossed-taken price qty sells (b ∷ buys) (p, u) = (
  take_upto-prices (λ a. b.price < a) buy price qty sells p,
  Uncrossed-taken price qty sells buys u,
)

Uncrossed-trade_queues :
    (side : Side) (room : Bool) (id price qty : ℕ) (sells buys : List Order)
    → Ordered sell sells
    → Ordered buy buys
    → Uncrossed (sells, buys)
    → Uncrossed (trade_queues side room id price qty (sells, buys))
Uncrossed-trade_queues buy room id price qty sells buys s b u =
    let left = (take_upto buy price qty sells).1 in
    All-rest_queue _ buy room (record { id = id; price = price; qty = left; side = buy }) buys
      (λ l. below price _ (take_upto-too_far buy price qty sells s l))
      (Uncrossed-taken price qty sells buys u)
Uncrossed-trade_queues sell room id price qty sells buys s b u =
    let left = (take_upto sell price qty buys).1 in
    Uncrossed-ask sell room (record { id = id; price = price; qty = left; side = sell }) sells
      (take_upto sell price qty buys).0 (λ l. take_upto-too_far sell price qty buys b l)
      (take_upto-prices (λ p. All (λ a. p < a.price) sells) sell price qty buys u)

-- Matching and resting keep the sides apart.
pub limit_order-Uncrossed :
    (id price qty : ℕ) (side : Side) (book : OrderBook)
    → IsBook book
    → Uncrossed (queues book)
    → Uncrossed (queues (limit_order id price qty side book))
limit_order-Uncrossed id price qty side book v u =
    subst Uncrossed (sym (limit_order-trade_queues id price qty side book v).1) (
      Uncrossed-trade_queues side (has_room (match_order side price qty book).0) id price qty
        (asks book) (bids book) (IsSide-Ordered book.desk.pool sell book.sell_limits v.sells)
        (IsSide-Ordered book.desk.pool buy book.buy_limits v.buys) u)

All-less :
    (P : Order → Type 0) (order : Order) (better worse : List Order)
    → All P (better ++ (order ∷ worse))
    → All P (better ++ worse)
All-less P order [] worse a = a.1
All-less P order (o ∷ better) worse (p, a) = (p, All-less P order better worse a)

Loses-All :
    (P : Order → Type 0) (order : Order) (orders orders' : List Order)
    → Loses order orders orders'
    → All P orders
    → All P orders'
Loses-All P order orders orders' l a =
    let b = rw l.was at a in rw l.is (All-less P order l.better l.worse b)

Uncrossed-lost_ask :
    (order : Order) (sells sells' buys : List Order)
    → Loses order sells sells'
    → Uncrossed (sells, buys)
    → Uncrossed (sells', buys)
Uncrossed-lost_ask order sells sells' [] l u = tt
Uncrossed-lost_ask order sells sells' (b ∷ buys) l (p, u) = (
  Loses-All (λ a. b.price < a.price) order sells sells' l p,
  Uncrossed-lost_ask order sells sells' buys l u,
)

pub Uncrossed-LosesSide :
    (side : Side) (order : Order) (book book' : OrderBook)
    → LosesSide side order book book'
    → Uncrossed (queues book)
    → Uncrossed (queues book')
Uncrossed-LosesSide buy order book book' (l, e) u =
    rw e (Loses-All _ order (bids book) (bids book') l u)
Uncrossed-LosesSide sell order book book' (l, e) u =
    rw e (Uncrossed-lost_ask order (asks book) (asks book') (bids book) l u)
