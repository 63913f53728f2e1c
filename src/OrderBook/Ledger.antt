-- ===== src/OrderBook/Ledger.antt =====
-- `Limit::total_volume` after a cancellation, and after any requests to a new book.
use knowledge_acquisition.Prelude.{
  ℕ, zero, suc, ◌+◌, ◌%◌, ◌<◌, ◌≡◌, refl, arith, some, List, [], ◌∷◌, replicate, total-append, All,
  ◌==◌, Bool-cases, Option-cases, inl, inr, lookup,
}
use knowledge_acquisition.OrderBook.{
  Side, buy, sell, Order, Limit, OrderBook, order_at, no_order, quantity_mod, retire, unlink,
  remove_order, put_limit, cancel_in, cancel_limits, cancel_order, new_book,
}
use knowledge_acquisition.OrderBook.Match.{count, view}
use knowledge_acquisition.OrderBook.Sweep.{nodes_of, IsSide, count_append}
use knowledge_acquisition.OrderBook.Exchange.{
  IsExchange, limit_order-IsExchange, cancel_order-cancels, mapped-buy, mapped-sell,
}
use knowledge_acquisition.OrderBook.Cancel.{view-unlink, Loses, in_level, not_level}
use knowledge_acquisition.OrderBook.Run.{Request, limit, cancel, serve, run, new_book-IsExchange}
use knowledge_acquisition.OrderBook.Volume.{quantity}
use knowledge_acquisition.OrderBook.Totals.{HasWords, HasTotals}
use knowledge_acquisition.OrderBook.Levels.{HasVolumes, limit_order-HasVolumes}

-- An order leaves a list of orders.
quantity-Loses :
    (order : Order) (orders orders' : List Order)
    → Loses order orders orders'
    → quantity orders ≡ order.qty + quantity orders'
quantity-Loses order orders orders' l =
    let a = total-append (λ (o : Order). o.qty) l.better (order ∷ l.worse) in
    let b = total-append (λ (o : Order). o.qty) l.better l.worse in rw (l.was, l.is) (omega arith)

put_limit-HasTotals :
    (pool : List Order) (p volume : ℕ) (orders : List ℕ) (limits : List (ℕ × Limit))
    → volume ≡ quantity (view pool orders) % quantity_mod
    → HasTotals pool limits
    → HasTotals pool (put_limit p (record { total_volume = volume; orders = orders }) limits)
put_limit-HasTotals pool p volume [] limits e a = a
put_limit-HasTotals pool p volume (o ∷ orders) limits e a = (e, a)

module _ (pool : List Order) (node : ℕ) (w : HasWords pool) where
  cancel_in-HasTotals :
      (side : Side) (limits : List (ℕ × Limit))
      → IsSide pool side limits
      → 0 < count node (nodes_of limits)
      → HasTotals pool limits
      → HasTotals pool (cancel_in (order_at pool node).price node (order_at pool node).qty limits)
  unfolding cancel_in
  cancel_in-HasTotals side [] s l a = tt
  cancel_in-HasTotals side ((p, level) ∷ limits) (n, st, b, s) l (e, a) =
      let order = order_at pool node in
      let c = count_append node level.orders (nodes_of limits) in
      elim (Bool-cases (p == order.price)) [
        | inl t ↦
            let own : p ≡ order.price = ground arith in
            let here = in_level pool node side p level limits own b s (omega arith) in
            let q =
              quantity-Loses order (view pool level.orders) (view pool (unlink node level.orders))
                (view-unlink pool node level.orders here) in
            let k = w node in
            rw (t, cancel_in)
              (put_limit-HasTotals pool p (remove_order node order.qty level).total_volume
                (unlink node level.orders) limits (omega arith) a)
        | inr t ↦
            rw (t, cancel_in)
              (
                e,
                cancel_in-HasTotals side limits s
                    (let z = not_level pool node side p level st t in omega arith) a,
              )
      ]

cancelled-HasVolumes :
    (id node : ℕ) (side : Side) (book : OrderBook)
    → IsExchange book
    → lookup id book.desk.order_map ≡ some node
    → (order_at book.desk.pool node).side ≡ side
    → HasVolumes book
    → HasVolumes (
        cancel_limits side
          (order_at book.desk.pool node)
          node
          (record book { desk = retire id node book.desk }))
cancelled-HasVolumes id node buy book v e d h = record {
  words = h.words;
  sells = h.sells;
  buys =
      cancel_in-HasTotals book.desk.pool node h.words buy book.buy_limits v.is_book.buys
        (mapped-buy id node book v e d) h.buys;
}
cancelled-HasVolumes id node sell book v e d h = record {
  words = h.words;
  sells =
      cancel_in-HasTotals book.desk.pool node h.words sell book.sell_limits v.is_book.sells
        (mapped-sell id node book v e d) h.sells;
  buys = h.buys;
}

cancel_order-HasVolumes :
    (id : ℕ) (book : OrderBook)
    → IsExchange book
    → HasVolumes book
    → HasVolumes (cancel_order id book)
unfolding cancel_order
cancel_order-HasVolumes id book v h = elim (Option-cases (lookup id book.desk.order_map)) [
  | inl e ↦ rw (e, cancel_order) h
  | inr (node, e) ↦
      rw (e, cancel_order)
        (cancelled-HasVolumes id node (order_at book.desk.pool node).side book v e refl h)
]

-- The quantity of a request has 32 bits.
abbrev pub IsWord : Request → Type 0
IsWord (limit id price qty side) = qty < quantity_mod
IsWord (cancel id) = Unit {0}

serve-HasVolumes :
    (request : Request) (book : OrderBook)
    → IsWord request
    → IsExchange book
    → HasVolumes book
    → IsExchange (serve request book) × HasVolumes (serve request book)
serve-HasVolumes (limit id price qty side) book q v h = (
  limit_order-IsExchange id price qty side book v,
  limit_order-HasVolumes id price qty side book v.is_book q h,
)
serve-HasVolumes (cancel id) book q v h =
    ((cancel_order-cancels id book v).0, cancel_order-HasVolumes id book v h)

run-HasVolumes :
    (requests : List Request) (book : OrderBook)
    → All IsWord requests
    → IsExchange book
    → HasVolumes book
    → HasVolumes (run requests book)
run-HasVolumes [] book a v h = h
run-HasVolumes (request ∷ requests) book (q, a) v h =
    let (v', h') = serve-HasVolumes request book q v h in
    run-HasVolumes requests (serve request book) a v' h'

order_at-replicate : (n m : ℕ) → order_at (replicate n no_order) m ≡ no_order
order_at-replicate zero m = refl
order_at-replicate (suc n) zero = refl
order_at-replicate (suc n) (suc m) = order_at-replicate n m

-- After any requests to a new book, with quantities of 32 bits, the volume of each level is the sum of
-- the quantities of its orders, in 32 bits.
pub run-volumes :
    (requests : List Request) (max_orders : ℕ)
    → All IsWord requests
    → HasTotals
        (run requests (new_book max_orders)).desk.pool
        (run requests (new_book max_orders)).sell_limits
      × HasTotals
          (run requests (new_book max_orders)).desk.pool
          (run requests (new_book max_orders)).buy_limits
run-volumes requests max_orders a =
    let h =
      run-HasVolumes requests (new_book max_orders) a (new_book-IsExchange max_orders) (record {
        words = λ m. rw (order_at-replicate max_orders m) (omega arith);
        sells = tt;
        buys = tt;
      }) in
    (h.sells, h.buys)
