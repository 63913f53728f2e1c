-- ===== src/OrderBook/Volume.antt =====
-- The quantity in the book.
use knowledge_acquisition.Prelude.{
  ℕ, ◌+◌, ◌-◌, ◌≡◌, refl, arith, true, ◌||◌, List, [], ◌∷◌, total, ltb, ◌==◌, Bool-cases, inl, inr,
}
use knowledge_acquisition.OrderBook.{
  Side, buy, sell, Order, OrderBook, before, too_far, match_order, limit_order,
}
use knowledge_acquisition.OrderBook.Sweep.{take_upto}
use knowledge_acquisition.OrderBook.Rest.{queue_order}
use knowledge_acquisition.OrderBook.Book.{
  IsBook, queues, rest_queue, trade_queues, has_room, limit_order-trade_queues,
}

abbrev pub quantity : List Order → ℕ
quantity orders = total (λ o. o.qty) orders

abbrev pub own_queue : Side → List Order × List Order → List Order
own_queue buy (sells, buys) = buys
own_queue sell (sells, buys) = sells

abbrev pub other_queue : Side → List Order × List Order → List Order
other_queue buy (sells, buys) = sells
other_queue sell (sells, buys) = buys

-- What is matched leaves the queue.
quantity-take_upto :
    (side : Side) (price remaining : ℕ) (orders : List Order)
    → quantity (take_upto side price remaining orders).0 + remaining
      ≡ quantity orders + (take_upto side price remaining orders).1
quantity-take_upto side price remaining [] = refl
quantity-take_upto side price remaining (order ∷ orders) =
    elim (Bool-cases ((remaining == 0) || too_far side price order.price)) [
      | inl t ↦ rw (t, take_upto) refl
      | inr t ↦ elim (Bool-cases (ltb remaining order.qty)) [
        | inl q ↦ rw (t, q, take_upto) (ground arith)
        | inr q ↦
            let r = quantity-take_upto side price (remaining - order.qty) orders in
            rw (t, q, take_upto) (ground arith)
      ]
    ]

quantity-queue_order :
    (side : Side) (order : Order) (orders : List Order)
    → quantity (queue_order side order orders) ≡ order.qty + quantity orders
quantity-queue_order side order [] = refl
quantity-queue_order side order (o ∷ orders) = elim (Bool-cases (before side order.price o.price)) [
  | inl t ↦ rw (t, queue_order) refl
  | inr t ↦ let r = quantity-queue_order side order orders in rw (t, queue_order) (omega arith)
]

quantity-rest_queue :
    (side : Side) (order : Order) (orders : List Order)
    → quantity (rest_queue side true order orders) ≡ order.qty + quantity orders
quantity-rest_queue side order orders = elim (Bool-cases (order.qty == 0)) [
  | inl t ↦ rw (t, rest_queue) (ground arith)
  | inr t ↦ rw (t, rest_queue) (quantity-queue_order side order orders)
]

quantity-trade_queues :
    (side : Side) (id price qty : ℕ) (sells buys : List Order)
    → quantity (own_queue side (trade_queues side true id price qty (sells, buys)))
        + quantity (other_queue side (sells, buys))
      ≡ quantity (own_queue side (sells, buys))
        + quantity (other_queue side (trade_queues side true id price qty (sells, buys)))
        + qty
quantity-trade_queues buy id price qty sells buys =
    let left = (take_upto buy price qty sells).1 in
    let t = quantity-take_upto buy price qty sells in
    let r =
      quantity-rest_queue buy (record { id = id; price = price; qty = left; side = buy }) buys in
    omega arith
quantity-trade_queues sell id price qty sells buys =
    let left = (take_upto sell price qty buys).1 in
    let t = quantity-take_upto sell price qty buys in
    let r =
      quantity-rest_queue sell (record { id = id; price = price; qty = left; side = sell }) sells in
    omega arith

-- In a well-formed book, if the pool has a node for the rest after the matching, then what an order adds
-- to its side and what it takes from the other side are together its quantity.
pub limit_order-quantity :
    (id price qty : ℕ) (side : Side) (book : OrderBook)
    → IsBook book
    → has_room (match_order side price qty book).0 ≡ true
    → quantity (own_queue side (queues (limit_order id price qty side book)))
        + quantity (other_queue side (queues book))
      ≡ quantity (own_queue side (queues book))
        + quantity (other_queue side (queues (limit_order id price qty side book)))
        + qty
limit_order-quantity id price qty side book v h =
    moved side (queues book) (queues (limit_order id price qty side book))
      (rw h at (limit_order-trade_queues id price qty side book v).1)
  where
    moved :
        (side : Side) (before after : List Order × List Order)
        → after ≡ trade_queues side true id price qty before
        → quantity (own_queue side after) + quantity (other_queue side before)
          ≡ quantity (own_queue side before) + quantity (other_queue side after) + qty
    moved side before after e = rw e (quantity-trade_queues side id price qty before.0 before.1)
