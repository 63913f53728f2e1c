-- ===== src/OrderBook/Run.antt =====
-- A book from its constructor on.
use knowledge_acquisition.Prelude.{
  ℕ, zero, suc, ◌+◌, ◌≡◌, arith, ◌&&◌, List, [], ◌∷◌, length-replicate, Option-cases, lookup, leb,
  ltb, inl, inr, if◌then◌else◌,
}
use knowledge_acquisition.OrderBook.{
  Side, OrderBook, order_at, no_order, link_nodes, new_book, limit_order, cancel_order,
}
use knowledge_acquisition.OrderBook.Match.{count}
use knowledge_acquisition.OrderBook.Book.{queues}
use knowledge_acquisition.OrderBook.Exchange.{
  IsExchange, limit_order-IsExchange, cancel_order-cancels,
}
use knowledge_acquisition.OrderBook.Crossing.{Uncrossed, limit_order-Uncrossed, Uncrossed-LosesSide}

pub data Request : Type 0 where
  limit : ℕ → ℕ → ℕ → Side → Request
  cancel : ℕ → Request

abbrev pub serve : Request → OrderBook → OrderBook
serve (limit id price qty side) book = limit_order id price qty side book
serve (cancel id) book = cancel_order id book

abbrev pub run : List Request → OrderBook → OrderBook
run [] book = book
run (request ∷ requests) book = run requests (serve request book)

count-link_nodes :
    (m n i : ℕ) → count m (link_nodes n i) ≡ (if leb i m && ltb m (i + n) then 1 else 0)
unfolding link_nodes
count-link_nodes m zero i = ground arith
count-link_nodes m (suc n) i = ground (arith, count-link_nodes m n (suc i))

pub new_book-IsExchange : (max_orders : ℕ) → IsExchange (new_book max_orders)
new_book-IsExchange max_orders = record {
  is_book = record {
    listed = λ m.
        let c = count-link_nodes m max_orders 0 in
        let s = length-replicate max_orders no_order in rw (c, s) (ground arith);
    sells = tt;
    buys = tt;
  };
  mapped = record { distinct = tt; leads = λ id node e. absurd cc };
}

cancel_order-Uncrossed :
    (id : ℕ) (book : OrderBook)
    → IsExchange book
    → Uncrossed (queues book)
    → Uncrossed (queues (cancel_order id book))
cancel_order-Uncrossed id book v u =
    let (w, (a, b)) = cancel_order-cancels id book v in
    elim (Option-cases (lookup id book.desk.order_map)) [
      | inl e ↦ rw (a e) u
      | inr (node, e) ↦
          Uncrossed-LosesSide (order_at book.desk.pool node).side (order_at book.desk.pool node)
            book (cancel_order id book) (b node e).1 u
    ]

-- What every request keeps.
abbrev pub IsSound : OrderBook → Type 0
IsSound book = IsExchange book × Uncrossed (queues book)

serve-IsSound : (request : Request) (book : OrderBook) → IsSound book → IsSound (serve request book)
serve-IsSound (limit id price qty side) book (v, u) = (
  limit_order-IsExchange id price qty side book v,
  limit_order-Uncrossed id price qty side book v.is_book u,
)
serve-IsSound (cancel id) book (v, u) =
    ((cancel_order-cancels id book v).0, cancel_order-Uncrossed id book v u)

run-IsSound :
    (requests : List Request) (book : OrderBook) → IsSound book → IsSound (run requests book)
run-IsSound [] book v = v
run-IsSound (request ∷ requests) book v =
    run-IsSound requests (serve request book) (serve-IsSound request book v)

-- After any requests to a new book every node of its pool is free or in one level, and only once; the
-- levels of each side are in order, not empty and hold orders of their price and side; the entries of
-- the map lead to resting orders of their ids; and every bid is below every ask.
pub run-new_book :
    (requests : List Request) (max_orders : ℕ)
    → IsExchange (run requests (new_book max_orders))
      × Uncrossed (queues (run requests (new_book max_orders)))
run-new_book requests max_orders =
    run-IsSound requests (new_book max_orders) (new_book-IsExchange max_orders, tt)
