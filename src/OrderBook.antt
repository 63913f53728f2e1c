-- ===== src/OrderBook.antt =====
-- main.cpp under document/laboratory/cpp/Solution/HFT, the classes `OrderPool`, `Limit` and
-- `OrderBook`. A node of the pool is named by its index. The list of a `Limit` holds its nodes from
-- `head` to `tail`, and the free list of the pool the nodes that its links go through. The two maps of
-- limits are lists in the order of the maps, so `begin` is the first entry. A price and a quantity
-- have 32 bits.
pub mod Match
pub mod Sweep
pub mod Rest
pub mod Book
pub mod Mapped
pub mod Cancel
pub mod Exchange
pub mod Crossing
pub mod Run
pub mod Volume
pub mod Totals
pub mod Levels
pub mod Ledger
mod Tests
use knowledge_acquisition.Prelude.{
  ℕ, zero, suc, ◌+◌, ◌-◌, ◌%◌, ◌^◌, Bool, true, false, ◌||◌, Option, none, some, List, [], ◌∷◌,
  ◌++◌, get_elem?, set, lookup, insert, remove, replicate, ltb, leb, ◌==◌, if◌then◌else◌,
}

pub data Side : Type 0 where
  buy sell : Side

pub record Order : Type 0 where
  pub id : ℕ
  pub price : ℕ
  pub qty : ℕ
  pub side : Side

pub record Limit : Type 0 where
  pub total_volume : ℕ
  pub orders : List ℕ

-- What the matching changes besides the limits.
pub record Desk : Type 0 where
  pub pool : List Order
  pub free_list : List ℕ
  pub order_map : List (ℕ × ℕ)

abbrev pub no_order : Order
no_order = record { id = 0; price = 0; qty = 0; side = buy }

-- Every node of a limit is one of the pool.
abbrev pub order_at : List Order → ℕ → Order
order_at pool node = elim (get_elem? pool node) [ none ↦ no_order | some order ↦ order ]

abbrev pub quantity_mod : ℕ
quantity_mod = 2 ^ 32

abbrev pub min_qty : ℕ → ℕ → ℕ
min_qty a b = if ltb b a then b else a

-- `OrderPool::deallocate`, after the order is erased from the map.
abbrev pub retire : ℕ → ℕ → Desk → Desk
retire id node desk = record desk {
  order_map = remove id desk.order_map;
  free_list = node ∷ desk.free_list;
}

pub record Filled : Type 0 where
  pub orders : List ℕ
  pub volume : ℕ
  pub remaining : ℕ
  pub desk : Desk

-- What one round of the inner loop makes of the desk, when `traded` is `match_qty`.
abbrev pub trade : ℕ → ℕ → Desk → Desk
trade node traded desk =
    let order = order_at desk.pool node in
    record desk { pool = set desk.pool node (record order { qty = order.qty - traded }) }

abbrev pub keep_node : ℕ → Filled → Filled
keep_node node filled = record filled { orders = node ∷ filled.orders }

-- The inner loop, from a resting order on. A filled order is the head of the list when it is removed.
unfoldable pub fill : List ℕ → ℕ → ℕ → Desk → Filled
fill [] volume remaining desk = record {
  orders = [];
  volume = volume;
  remaining = remaining;
  desk = desk;
}
fill (node ∷ nodes) volume remaining desk =
    let order = order_at desk.pool node in
    let traded = min_qty remaining order.qty in
    let volume' = (volume + quantity_mod - traded) % quantity_mod in
    let desk' = trade node traded desk in
    let gone = fill nodes volume' (remaining - traded) (retire order.id node desk') in
    let kept = fill nodes volume' (remaining - traded) desk' in
    if remaining == 0
    then record { orders = node ∷ nodes; volume = volume; remaining = remaining; desk = desk }
    else if order.qty - traded == 0
    then gone
    else keep_node node kept

-- The test that ends the matching at the best price.
abbrev pub too_far : Side → ℕ → ℕ → Bool
too_far buy price best = ltb price best
too_far sell price best = ltb best price

pub record Swept : Type 0 where
  pub limits : List (ℕ × Limit)
  pub remaining : ℕ
  pub desk : Desk

-- What the inner loop left of the best limit, and the loop on the limits after it.
abbrev pub after_level : ℕ → List (ℕ × Limit) → Filled → Swept → List ℕ → Swept
after_level best limits filled rest [] = rest
after_level best limits filled rest (node ∷ nodes) = record {
  limits = (best, record { total_volume = filled.volume; orders = node ∷ nodes }) ∷ limits;
  remaining = filled.remaining;
  desk = filled.desk;
}

-- The outer loop, on the limits of the other side. A limit that keeps an order has left nothing to
-- match.
unfoldable pub sweep : Side → ℕ → List (ℕ × Limit) → ℕ → Desk → Swept
sweep side price [] remaining desk = record { limits = []; remaining = remaining; desk = desk }
sweep side price ((best, limit) ∷ limits) remaining desk =
    let filled = fill limit.orders limit.total_volume remaining desk in
    let rest = sweep side price limits filled.remaining filled.desk in
    if (remaining == 0) || too_far side price best
    then record { limits = (best, limit) ∷ limits; remaining = remaining; desk = desk }
    else after_level best limits filled rest filled.orders

-- `Limit::append`.
abbrev pub append_order : ℕ → ℕ → Limit → Limit
append_order node qty limit = record {
  total_volume = (limit.total_volume + qty) % quantity_mod;
  orders = limit.orders ++ (node ∷ []);
}

abbrev pub new_limit : Limit
new_limit = record { total_volume = 0; orders = [] }

-- The order of the map of a side: the best price is the first.
abbrev pub before : Side → ℕ → ℕ → Bool
before buy a b = ltb b a
before sell a b = ltb a b

-- The limit of the price, which is made when it is not there, with the order at its end.
unfoldable pub book_order : Side → ℕ → ℕ → ℕ → List (ℕ × Limit) → List (ℕ × Limit)
book_order side price node qty [] = (price, append_order node qty new_limit) ∷ []
book_order side price node qty ((p, limit) ∷ limits) =
    let rest = book_order side price node qty limits in
    if p == price
    then (p, append_order node qty limit) ∷ limits
    else if before side price p
    then (price, append_order node qty new_limit) ∷ (p, limit) ∷ limits
    else (p, limit) ∷ rest

pub record OrderBook : Type 0 where
  pub desk : Desk
  pub sell_limits : List (ℕ × Limit)
  pub buy_limits : List (ℕ × Limit)

-- The constructor of the pool, from node `i` on.
unfoldable pub link_nodes : ℕ → ℕ → List ℕ
link_nodes zero i = []
link_nodes (suc n) i = i ∷ link_nodes n (suc i)

abbrev pub new_book : ℕ → OrderBook
new_book max_orders = record {
  desk = record {
    pool = replicate max_orders no_order;
    free_list = link_nodes max_orders 0;
    order_map = [];
  };
  sell_limits = [];
  buy_limits = [];
}

-- The first half of `limit_order`.
unfoldable pub match_order : Side → ℕ → ℕ → OrderBook → OrderBook × ℕ
match_order buy price qty book =
    let swept = sweep buy price book.sell_limits qty book.desk in
    (record book { desk = swept.desk; sell_limits = swept.limits }, swept.remaining)
match_order sell price qty book =
    let swept = sweep sell price book.buy_limits qty book.desk in
    (record book { desk = swept.desk; buy_limits = swept.limits }, swept.remaining)

-- A node is taken from the pool and filled in.
abbrev pub place : ℕ → List ℕ → Order → Desk → Desk
place node free_list order desk = record {
  pool = set desk.pool node order;
  free_list = free_list;
  order_map = insert order.id node desk.order_map;
}

abbrev pub add_limits : Side → Order → ℕ → OrderBook → OrderBook
add_limits buy order node book = record book {
  buy_limits = book_order buy order.price node order.qty book.buy_limits;
}
add_limits sell order node book = record book {
  sell_limits = book_order sell order.price node order.qty book.sell_limits;
}

-- The second half, on the free list. Without a free node the order is dropped.
abbrev pub rest_on : List ℕ → Order → OrderBook → OrderBook
rest_on [] order book = book
rest_on (node ∷ free_list) order book =
    add_limits order.side order node (record book { desk = place node free_list order book.desk })

unfoldable pub rest_order : Order → OrderBook → OrderBook
rest_order order book = if order.qty == 0 then book else rest_on book.desk.free_list order book

unfoldable pub limit_order : ℕ → ℕ → ℕ → Side → OrderBook → OrderBook
limit_order id price qty side book =
    let (matched, remaining) = match_order side price qty book in
    rest_order (record { id = id; price = price; qty = remaining; side = side }) matched

-- `Limit::remove` on the list.
abbrev pub unlink : ℕ → List ℕ → List ℕ
unlink node [] = []
unlink node (n ∷ nodes) = if n == node then nodes else n ∷ unlink node nodes

abbrev pub remove_order : ℕ → ℕ → Limit → Limit
remove_order node qty limit = record {
  total_volume = (limit.total_volume + quantity_mod - qty) % quantity_mod;
  orders = unlink node limit.orders;
}

-- A limit without orders is erased.
abbrev pub put_limit : ℕ → Limit → List (ℕ × Limit) → List (ℕ × Limit)
put_limit price limit limits = elim limit.orders [
  | [] ↦ limits
  | node ∷ nodes ↦ (price, limit) ∷ limits
]

unfoldable pub cancel_in : ℕ → ℕ → ℕ → List (ℕ × Limit) → List (ℕ × Limit)
cancel_in price node qty [] = []
cancel_in price node qty ((p, limit) ∷ limits) =
    let rest = cancel_in price node qty limits in
    if p == price then put_limit p (remove_order node qty limit) limits else (p, limit) ∷ rest

abbrev pub cancel_limits : Side → Order → ℕ → OrderBook → OrderBook
cancel_limits buy order node book = record book {
  buy_limits = cancel_in order.price node order.qty book.buy_limits;
}
cancel_limits sell order node book = record book {
  sell_limits = cancel_in order.price node order.qty book.sell_limits;
}

unfoldable pub cancel_order : ℕ → OrderBook → OrderBook
cancel_order id book = elim (lookup id book.desk.order_map) [
  | none ↦ book
  | some node ↦
      let order = order_at book.desk.pool node in
      cancel_limits order.side order node (record book { desk = retire id node book.desk })
]
