-- ===== src/OrderBook/Book.antt =====
-- `limit_order` on the queues of the two sides.
use knowledge_acquisition.Prelude.{
  ℕ, ◌+◌, ◌<◌, ◌≡◌, refl, ap, ◌∙◌, arith, Bool, true, false, ◌||◌, not, List, [], ◌∷◌, length,
  length-set, set, All, ltb, ◌==◌, ==_refl, Bool-cases, inl, inr, if◌then◌else◌,
}
use knowledge_acquisition.OrderBook.{
  Side, buy, sell, Order, Limit, OrderBook, order_at, match_order, place, add_limits, rest_on,
  rest_order, limit_order,
}
use knowledge_acquisition.OrderBook.Match.{count, order_at-set, view-set, Stands}
use knowledge_acquisition.OrderBook.Sweep.{
  nodes_of, IsSide, IsSide-Fixed, count_append, view_same, take_upto, sweep-Sweeps,
}
use knowledge_acquisition.OrderBook.Rest.{
  queue_order, side_view, book_order-view, count-book_order, book_order-IsSide,
}

-- The orders of a side, the best and oldest first.
abbrev pub asks : OrderBook → List Order
asks book = side_view book.desk.pool book.sell_limits

abbrev pub bids : OrderBook → List Order
bids book = side_view book.desk.pool book.buy_limits

-- Every node of the pool is free or in one limit, and only once.
pub record IsBook (book : OrderBook) : Type 0 where
  pub listed :
      (m : ℕ)
      → count m book.desk.free_list
          + (count m (nodes_of book.sell_limits) + count m (nodes_of book.buy_limits))
        ≡ (if ltb m (length book.desk.pool) then 1 else 0)
  pub sells : IsSide book.desk.pool sell book.sell_limits
  pub buys : IsSide book.desk.pool buy book.buy_limits

-- The queues after the first half of `limit_order`.
abbrev pub Matches : Side → ℕ → ℕ → OrderBook → OrderBook → ℕ → Type 0
Matches buy price qty book matched remaining =
    ((asks matched, remaining) ≡ take_upto buy price qty (asks book)) × (bids matched ≡ bids book)
Matches sell price qty book matched remaining =
    ((bids matched, remaining) ≡ take_upto sell price qty (bids book)) × (asks matched ≡ asks book)

pub match_order-Matches :
    (side : Side) (price qty : ℕ) (book : OrderBook)
    → IsBook book
    → IsBook (match_order side price qty book).0
      × Matches side price qty book
          (match_order side price qty book).0
          (match_order side price qty book).1
unfolding match_order
match_order-Matches buy price qty book v =
    let pool = book.desk.pool in
    let s =
      sweep-Sweeps sell buy price qty book.sell_limits book.desk v.sells
        (λ m. let l = v.listed m in (ground arith, λ p. ground arith)) in
    (
      record {
        listed =
            λ m. let l = v.listed m in let k = s.kept m in let z = s.sized in rw z (omega arith);
        sells = s.sides;
        buys = IsSide-Fixed pool _ buy book.buy_limits s.fixed v.buys;
      },
      (
        s.left,
        view_same pool _ (nodes_of book.buy_limits)
            (λ m l. s.same m (let k = v.listed m in ground arith)),
      ),
    )
match_order-Matches sell price qty book v =
    let pool = book.desk.pool in
    let s =
      sweep-Sweeps buy sell price qty book.buy_limits book.desk v.buys
        (λ m. let l = v.listed m in (ground arith, λ p. ground arith)) in
    (
      record {
        listed =
            λ m. let l = v.listed m in let k = s.kept m in let z = s.sized in rw z (omega arith);
        buys = s.sides;
        sells = IsSide-Fixed pool _ sell book.sell_limits s.fixed v.sells;
      },
      (
        s.left,
        view_same pool _ (nodes_of book.sell_limits)
            (λ m l. s.same m (let k = v.listed m in ground arith)),
      ),
    )

All-Stands-set :
    (pool : List Order) (n : ℕ) (order : Order) (price : ℕ) (side : Side) (nodes : List ℕ)
    → n < length pool
    → count n nodes ≡ 0
    → All (Stands pool price side) nodes
    → All (Stands (set pool n order) price side) nodes
All-Stands-set pool n order price side [] l c a = tt
All-Stands-set pool n order price side (node ∷ nodes) l c (b, a) =
    let f : (n == node) ≡ false = ground arith in
    let e = rw f at (order_at-set pool n node order l) in
    (rw e b, All-Stands-set pool n order price side nodes l (ground arith) a)

IsSide-set :
    (pool : List Order) (n : ℕ) (order : Order) (side : Side) (limits : List (ℕ × Limit))
    → n < length pool
    → count n (nodes_of limits) ≡ 0
    → IsSide pool side limits
    → IsSide (set pool n order) side limits
IsSide-set pool n order side [] l c s = tt
IsSide-set pool n order side ((price, limit) ∷ limits) l c (k, a, b, s) =
    let d = count_append n limit.orders (nodes_of limits) in
    (
      k,
      All-Stands-set pool n order price side limit.orders l (omega arith) a,
      b,
      IsSide-set pool n order side limits l (omega arith) s,
    )

-- An order joins its queue, if something of it is left and the pool has a node.
abbrev pub rest_queue : Side → Bool → Order → List Order → List Order
rest_queue side room order orders =
    if (order.qty == 0) || not room then orders else queue_order side order orders

abbrev pub has_room : OrderBook → Bool
has_room book = elim book.desk.free_list [ [] ↦ false | node ∷ free_list ↦ true ]

abbrev pub Rests : Side → Order → OrderBook → OrderBook → Type 0
Rests buy order book rested =
    (bids rested ≡ rest_queue buy (has_room book) order (bids book)) × (asks rested ≡ asks book)
Rests sell order book rested =
    (asks rested ≡ rest_queue sell (has_room book) order (asks book)) × (bids rested ≡ bids book)

Rests-nothing :
    (order : Order) (book : OrderBook)
    → ((order.qty == 0) || not (has_room book)) ≡ true
    → Rests order.side order book book
Rests-nothing order book t = by_side order.side order book t
  where
    by_side :
        (side : Side) (order : Order) (book : OrderBook)
        → ((order.qty == 0) || not (has_room book)) ≡ true
        → Rests side order book book
    by_side buy order book t = (rw t refl, refl)
    by_side sell order book t = (rw t refl, refl)

-- The order is written to a free node.
placed :
    (side : Side) (order : Order) (node : ℕ) (free_list : List ℕ) (book : OrderBook)
    → order.side ≡ side
    → (order.qty == 0) ≡ false
    → book.desk.free_list ≡ node ∷ free_list
    → IsBook book
    → IsBook
        (add_limits side order node (record book { desk = place node free_list order book.desk }))
      × Rests side order book
          (add_limits side order node (record book { desk = place node free_list order book.desk }))
placed buy order node free_list book d q f v =
    let pool = book.desk.pool in
    let at_node = v.listed node in
    let one = ==_refl node in
    let here : 0 < count node book.desk.free_list = rw f (ground arith) in
    let l : node < length pool = ground arith in
    let in_sells : count node (nodes_of book.sell_limits) ≡ 0 = ground arith in
    let in_buys : count node (nodes_of book.buy_limits) ≡ 0 = ground arith in
    let own : order_at (set pool node order) node ≡ order =
      rw one at (order_at-set pool node node order l) in
    let s = IsSide-set pool node order sell book.sell_limits l in_sells v.sells in
    let b = IsSide-set pool node order buy book.buy_limits l in_buys v.buys in
    let room : has_room book ≡ true = rw (f, has_room) refl in
    let view_buys = view-set pool node order (nodes_of book.buy_limits) l in_buys in
    let view_sells = view-set pool node order (nodes_of book.sell_limits) l in_sells in
    (
      record {
        listed = λ m.
            let k = rw f at (v.listed m) in
            let c =
              count-book_order (set pool node order) buy node order own d m order.qty
                book.buy_limits in
            rw (length-set pool node order) (omega arith);
        sells = s;
        buys =
            book_order-IsSide (set pool node order) buy node order own d order.qty book.buy_limits
              b;
      },
      (
        book_order-view (set pool node order) buy node order own d order.qty book.buy_limits b
            ∙ rw (q, room) (ap (queue_order buy order) view_buys),
        view_sells,
      ),
    )
placed sell order node free_list book d q f v =
    let pool = book.desk.pool in
    let at_node = v.listed node in
    let one = ==_refl node in
    let here : 0 < count node book.desk.free_list = rw f (ground arith) in
    let l : node < length pool = ground arith in
    let in_sells : count node (nodes_of book.sell_limits) ≡ 0 = ground arith in
    let in_buys : count node (nodes_of book.buy_limits) ≡ 0 = ground arith in
    let own : order_at (set pool node order) node ≡ order =
      rw one at (order_at-set pool node node order l) in
    let s = IsSide-set pool node order sell book.sell_limits l in_sells v.sells in
    let b = IsSide-set pool node order buy book.buy_limits l in_buys v.buys in
    let room : has_room book ≡ true = rw (f, has_room) refl in
    let view_buys = view-set pool node order (nodes_of book.buy_limits) l in_buys in
    let view_sells = view-set pool node order (nodes_of book.sell_limits) l in_sells in
    (
      record {
        listed = λ m.
            let k = rw f at (v.listed m) in
            let c =
              count-book_order (set pool node order) sell node order own d m order.qty
                book.sell_limits in
            rw (length-set pool node order) (omega arith);
        buys = b;
        sells =
            book_order-IsSide (set pool node order) sell node order own d order.qty book.sell_limits
              s;
      },
      (
        book_order-view (set pool node order) sell node order own d order.qty book.sell_limits s
            ∙ rw (q, room) (ap (queue_order sell order) view_sells),
        view_buys,
      ),
    )

rest_on-Rests :
    (free_list : List ℕ) (order : Order) (book : OrderBook)
    → (order.qty == 0) ≡ false
    → book.desk.free_list ≡ free_list
    → IsBook book
    → IsBook (rest_on free_list order book)
      × Rests order.side order book (rest_on free_list order book)
rest_on-Rests [] order book t e v =
    let none_left : has_room book ≡ false = rw (e, has_room) refl in
    (v, Rests-nothing order book (rw (t, none_left) refl))
rest_on-Rests (node ∷ free_list) order book t e v =
    placed order.side order node free_list book refl t e v

pub rest_order-Rests :
    (order : Order) (book : OrderBook)
    → IsBook book
    → IsBook (rest_order order book) × Rests order.side order book (rest_order order book)
unfolding rest_order
rest_order-Rests order book v = elim (Bool-cases (order.qty == 0)) [
  | inl t ↦ rw (t, rest_order) (v, Rests-nothing order book (rw t refl))
  | inr t ↦ rw (t, rest_order) (rest_on-Rests book.desk.free_list order book t refl v)
]

-- The two queues as `limit_order` should treat them; `room` says whether the pool has a node left.
abbrev pub trade_queues :
    Side → Bool → ℕ → ℕ → ℕ → List Order × List Order → List Order × List Order
trade_queues buy room id price qty (sells, buys) =
    let (sells', left) = take_upto buy price qty sells in
    (sells', rest_queue buy room (record { id = id; price = price; qty = left; side = buy }) buys)
trade_queues sell room id price qty (sells, buys) =
    let (buys', left) = take_upto sell price qty buys in
    (rest_queue sell room (record { id = id; price = price; qty = left; side = sell }) sells, buys')

abbrev pub queues : OrderBook → List Order × List Order
queues book = (asks book, bids book)

-- On a well-formed book `limit_order` is the matching on the queues, and leaves a well-formed book.
-- The rest of the order joins its queue if the pool has a node left after the matching.
pub limit_order-trade_queues :
    (id price qty : ℕ) (side : Side) (book : OrderBook)
    → IsBook book
    → IsBook (limit_order id price qty side book)
      × (queues (limit_order id price qty side book)
          ≡ trade_queues side
              (has_room (match_order side price qty book).0)
              id
              price
              qty
              (queues book))
unfolding limit_order
limit_order-trade_queues id price qty buy book v =
    let (w, (e, f)) = match_order-Matches buy price qty book v in
    let (matched, left) = match_order buy price qty book in
    let order : Order = record { id = id; price = price; qty = left; side = buy } in
    let (x, (g, h)) = rest_order-Rests order matched w in (x, rw (g, h, f, ← e) refl)
limit_order-trade_queues id price qty sell book v =
    let (w, (e, f)) = match_order-Matches sell price qty book v in
    let (matched, left) = match_order sell price qty book in
    let order : Order = record { id = id; price = price; qty = left; side = sell } in
    let (x, (g, h)) = rest_order-Rests order matched w in (x, rw (g, h, f, ← e) refl)
