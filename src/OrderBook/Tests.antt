-- ===== src/OrderBook/Tests.antt =====
-- The theorems about the order book at a small book.
use knowledge_acquisition.Prelude.{
  ℕ, ◌+◌, ◌≡◌, refl, arith, true, none, some, List, [], ◌∷◌, lookup,
}
use knowledge_acquisition.OrderBook.{
  buy, sell, OrderBook, order_at, new_book, match_order, limit_order, cancel_order, rest_order,
  sweep, link_nodes, book_order, fill, cancel_in,
}
use knowledge_acquisition.OrderBook.Book.{
  IsBook, queues, trade_queues, has_room, limit_order-trade_queues,
}
use knowledge_acquisition.OrderBook.Exchange.{IsExchange, LosesSide, cancel_order-cancels}
use knowledge_acquisition.OrderBook.Crossing.{Uncrossed}
use knowledge_acquisition.OrderBook.Run.{Request, limit, cancel, run, run-new_book}
use knowledge_acquisition.OrderBook.Volume.{quantity, own_queue, other_queue, limit_order-quantity}
use knowledge_acquisition.OrderBook.Totals.{HasTotals}
use knowledge_acquisition.OrderBook.Ledger.{run-volumes}

-- The book of `main` with a second sell order, before the buy order comes.
abbrev requests : List Request
requests = limit 1 105 50 sell ∷ limit 3 107 10 sell ∷ []

abbrev book : OrderBook
book = run requests (new_book 4)

queues-served : queues (run (limit 2 106 20 buy ∷ []) book) ≡ (
  record { id = 1; price = 105; qty = 30; side = sell }
      ∷ record { id = 3; price = 107; qty = 10; side = sell }
      ∷ [],
  [],
)
unfolding limit_order rest_order match_order sweep link_nodes book_order fill
queues-served = refl

-- The second order takes the entry of the first, which no cancellation finds any more.
queues-same_id :
    queues (run (limit 1 105 50 sell ∷ limit 1 107 10 sell ∷ cancel 1 ∷ cancel 1 ∷ []) (new_book 4))
    ≡ (record { id = 1; price = 105; qty = 50; side = sell } ∷ [], [])
unfolding limit_order rest_order match_order sweep link_nodes book_order fill cancel_order cancel_in
queues-same_id = refl

run-new_book_example :
    IsExchange (run (limit 2 106 20 buy ∷ cancel 1 ∷ requests) (new_book 4))
    × Uncrossed (queues (run (limit 2 106 20 buy ∷ cancel 1 ∷ requests) (new_book 4)))
run-new_book_example = run-new_book (limit 2 106 20 buy ∷ cancel 1 ∷ requests) 4

limit_order-trade_queues_example :
    IsBook (limit_order 2 108 55 buy book)
    × (queues (limit_order 2 108 55 buy book)
        ≡ trade_queues buy (has_room (match_order buy 108 55 book).0) 2 108 55 (queues book))
limit_order-trade_queues_example =
    limit_order-trade_queues 2 108 55 buy book (run-new_book requests 4).0.is_book

cancel_order-cancels_example :
    IsExchange (cancel_order 1 book)
    × ((lookup 1 book.desk.order_map ≡ none → cancel_order 1 book ≡ book)
        × ((node : ℕ)
            → lookup 1 book.desk.order_map ≡ some node
            → ((order_at book.desk.pool node).id ≡ 1)
              × LosesSide
                  (order_at book.desk.pool node).side
                  (order_at book.desk.pool node)
                  book
                  (cancel_order 1 book)))
cancel_order-cancels_example = cancel_order-cancels 1 book (run-new_book requests 4).0

room : has_room (match_order buy 106 80 book).0 ≡ true
unfolding limit_order rest_order match_order sweep link_nodes book_order fill
room = refl

limit_order-quantity_example :
    quantity (own_queue buy (queues (limit_order 2 106 80 buy book)))
      + quantity (other_queue buy (queues book))
    ≡ quantity (own_queue buy (queues book))
      + quantity (other_queue buy (queues (limit_order 2 106 80 buy book)))
      + 80
limit_order-quantity_example =
    limit_order-quantity 2 106 80 buy book (run-new_book requests 4).0.is_book room

run-volumes_example :
    HasTotals
      (run (limit 2 106 20 buy ∷ cancel 1 ∷ requests) (new_book 4)).desk.pool
      (run (limit 2 106 20 buy ∷ cancel 1 ∷ requests) (new_book 4)).sell_limits
    × HasTotals
        (run (limit 2 106 20 buy ∷ cancel 1 ∷ requests) (new_book 4)).desk.pool
        (run (limit 2 106 20 buy ∷ cancel 1 ∷ requests) (new_book 4)).buy_limits
run-volumes_example =
    run-volumes (limit 2 106 20 buy ∷ cancel 1 ∷ requests) 4
      (omega arith, (tt, (omega arith, (omega arith, tt))))
