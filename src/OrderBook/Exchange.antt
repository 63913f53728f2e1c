-- ===== src/OrderBook/Exchange.antt =====
-- Both operations keep the book together with the map of its orders.
use knowledge_acquisition.Prelude.{
  ℕ, ◌+◌, ◌<◌, ◌≡◌, ◌≢◌, refl, sym, ap, ◌∙◌, arith, true, false, none, some, List, [], ◌∷◌, length,
  set, lookup, insert, lookup-insert, Distinct-insert, ltb, ◌==◌, ==_refl, Bool-cases, Option-cases,
  inl, inr, if◌then◌else◌,
}
use mathlib.Core.Option.{some-injective}
use knowledge_acquisition.OrderBook.{
  Side, buy, sell, Order, OrderBook, order_at, match_order, place, add_limits, rest_on, rest_order,
  limit_order, retire, cancel_limits, cancel_order,
}
use knowledge_acquisition.OrderBook.Match.{count, order_at-set}
use knowledge_acquisition.OrderBook.Sweep.{nodes_of}
use knowledge_acquisition.OrderBook.Rest.{count-book_order}
use knowledge_acquisition.OrderBook.Book.{
  IsBook, asks, bids, match_order-Matches, limit_order-trade_queues,
}
use knowledge_acquisition.OrderBook.Mapped.{
  IsMapped, IsMapped-Fixed, IsMapped-remove, sweep-IsMapped,
}
use knowledge_acquisition.OrderBook.Cancel.{Loses, cancel_in-Cancels, listed_side}

abbrev pub resting : OrderBook → ℕ → ℕ
resting book m = count m (nodes_of book.sell_limits) + count m (nodes_of book.buy_limits)

pub record IsExchange (book : OrderBook) : Type 0 where
  pub is_book : IsBook book
  pub mapped : IsMapped book.desk.pool book.desk.order_map (resting book)

match_order-IsMapped :
    (side : Side) (price qty : ℕ) (book : OrderBook)
    → IsExchange book
    → IsMapped
        (match_order side price qty book).0.desk.pool
        (match_order side price qty book).0.desk.order_map
        (resting (match_order side price qty book).0)
unfolding match_order
match_order-IsMapped buy price qty book v =
    sweep-IsMapped buy price qty book.sell_limits book.desk
      (λ m. count m (nodes_of book.buy_limits))
      (λ m. let l = v.is_book.listed m in (ground arith, λ p. ground arith)) v.mapped
match_order-IsMapped sell price qty book v =
    let flip = λ (w : OrderBook) (m : ℕ).
      (count m (nodes_of w.buy_limits) + count m (nodes_of w.sell_limits)) in
    let book' = (match_order sell price qty book).0 in
    let s =
      sweep-IsMapped sell price qty book.buy_limits book.desk
        (λ m. count m (nodes_of book.sell_limits))
        (λ m. let l = v.is_book.listed m in (ground arith, λ p. ground arith))
        (IsMapped-Fixed book.desk.pool book.desk.pool book.desk.order_map (resting book) (flip book)
          (λ m. (refl, refl, refl)) (λ m k. omega arith) v.mapped) in
    IsMapped-Fixed book'.desk.pool book'.desk.pool book'.desk.order_map (flip book') (resting book')
      (λ m. (refl, refl, refl)) (λ m k. omega arith) s

-- A new entry, at a node that nothing rests on.
placed-IsMapped :
    (pool : List Order) (order_map : List (ℕ × ℕ)) (before after : ℕ → ℕ) (node : ℕ) (order : Order)
    → node < length pool
    → before node ≡ 0
    → ((m : ℕ) → after m ≡ (if node == m then 1 else 0) + before m)
    → IsMapped pool order_map before
    → IsMapped (set pool node order) (insert order.id node order_map) after
placed-IsMapped pool order_map before after node order l z h v = record {
  distinct = Distinct-insert order.id node order_map v.distinct;
  leads = λ id m e.
      let r = lookup-insert order.id id node order_map in
      let s = order_at-set pool node m order l in
      let k = h m in
      elim (Bool-cases (order.id == id)) [
        | inl t ↦
            let own = some-injective node m (sym (rw t at r) ∙ e) in
            let same : order.id ≡ id = ground arith in
            let here : (node == m) ≡ true = ground arith in
            (ap (λ (o : Order). o.id) (rw here at s) ∙ same, ground arith)
        | inr t ↦
            let (a, b) = v.leads id m (sym (rw t at r) ∙ e) in
            let other : (node == m) ≡ false = apart before node m z b in
            (ap (λ (o : Order). o.id) (rw other at s) ∙ a, ground arith)
      ];
}
  where
    apart : (before : ℕ → ℕ) (node m : ℕ) → before node ≡ 0 → 0 < before m → (node == m) ≡ false
    apart before node m z b = elim (Bool-cases (node == m)) [
      | inl t ↦ let own : node ≡ m = ground arith in let c = rw own at z in absurd (omega arith)
      | inr t ↦ t
    ]

rest_on-IsMapped :
    (free_list : List ℕ) (order : Order) (book : OrderBook)
    → book.desk.free_list ≡ free_list
    → IsExchange book
    → IsMapped
        (rest_on free_list order book).desk.pool
        (rest_on free_list order book).desk.order_map
        (resting (rest_on free_list order book))
rest_on-IsMapped [] order book e v = v.mapped
rest_on-IsMapped (node ∷ free_list) order book e v = by_side order.side refl
  where
    by_side :
        (side : Side)
        → order.side ≡ side
        → IsMapped
            (add_limits side order node
              (record book { desk = place node free_list order book.desk })).desk.pool
            (add_limits side order node
              (record book { desk = place node free_list order book.desk })).desk.order_map
            (resting (
              add_limits side order node
                (record book { desk = place node free_list order book.desk })))
    by_side buy d =
        let k = v.is_book.listed node in
        let one = ==_refl node in
        let here : 0 < count node book.desk.free_list = rw e (ground arith) in
        let l : node < length book.desk.pool = ground arith in
        let own : order_at (set book.desk.pool node order) node ≡ order =
          rw one at (order_at-set book.desk.pool node node order l) in
        placed-IsMapped book.desk.pool book.desk.order_map (resting book) _ node order l
          (ground arith)
          (λ m.
            let c =
              count-book_order (set book.desk.pool node order) buy node order own d m order.qty
                book.buy_limits in
            omega arith)
          v.mapped
    by_side sell d =
        let k = v.is_book.listed node in
        let one = ==_refl node in
        let here : 0 < count node book.desk.free_list = rw e (ground arith) in
        let l : node < length book.desk.pool = ground arith in
        let own : order_at (set book.desk.pool node order) node ≡ order =
          rw one at (order_at-set book.desk.pool node node order l) in
        placed-IsMapped book.desk.pool book.desk.order_map (resting book) _ node order l
          (ground arith)
          (λ m.
            let c =
              count-book_order (set book.desk.pool node order) sell node order own d m order.qty
                book.sell_limits in
            omega arith)
          v.mapped

pub limit_order-IsExchange :
    (id price qty : ℕ) (side : Side) (book : OrderBook)
    → IsExchange book
    → IsExchange (limit_order id price qty side book)
unfolding limit_order rest_order
limit_order-IsExchange id price qty side book v =
    let matched = (match_order side price qty book).0 in
    let left = (match_order side price qty book).1 in
    let order : Order = record { id = id; price = price; qty = left; side = side } in
    let w : IsExchange matched = record {
      is_book = (match_order-Matches side price qty book v.is_book).0;
      mapped = match_order-IsMapped side price qty book v;
    } in
    record {
      is_book = (limit_order-trade_queues id price qty side book v.is_book).0;
      mapped = elim (Bool-cases (left == 0)) [
        | inl t ↦ rw (t, limit_order, rest_order) w.mapped
        | inr t ↦
            rw (t, limit_order, rest_order)
              (rest_on-IsMapped matched.desk.free_list order matched refl w)
      ];
    }

-- The queues after a cancellation.
abbrev pub LosesSide : Side → Order → OrderBook → OrderBook → Type 0
LosesSide buy order book book' = Loses order (bids book) (bids book') × (asks book' ≡ asks book)
LosesSide sell order book book' = Loses order (asks book) (asks book') × (bids book' ≡ bids book)

-- A node that is on one of two sides is on the side of its order.
elsewhere :
    (side other own : Side) (there here : ℕ)
    → side ≢ other
    → own ≡ side
    → (0 < there → own ≡ other)
    → 0 < there + here
    → 0 < here
elsewhere side other own there here n d f l = elim (Bool-cases (ltb 0 there)) [
  | inl t ↦ absurd (n (sym d ∙ f (ground arith)))
  | inr t ↦ ground arith
]

-- The node of an entry is in a level of the side of its order.
pub mapped-buy :
    (id node : ℕ) (book : OrderBook)
    → IsExchange book
    → lookup id book.desk.order_map ≡ some node
    → (order_at book.desk.pool node).side ≡ buy
    → 0 < count node (nodes_of book.buy_limits)
mapped-buy id node book v e d =
    let differ : buy ≢ sell = λ q. cc in
    elsewhere buy sell _ (count node (nodes_of book.sell_limits)) _ differ d
      (listed_side book.desk.pool node sell book.sell_limits v.is_book.sells)
      (v.mapped.leads id node e).1

pub mapped-sell :
    (id node : ℕ) (book : OrderBook)
    → IsExchange book
    → lookup id book.desk.order_map ≡ some node
    → (order_at book.desk.pool node).side ≡ sell
    → 0 < count node (nodes_of book.sell_limits)
mapped-sell id node book v e d =
    let differ : sell ≢ buy = λ q. cc in
    elsewhere sell buy _ (count node (nodes_of book.buy_limits)) _ differ d
      (listed_side book.desk.pool node buy book.buy_limits v.is_book.buys)
      (let l = (v.mapped.leads id node e).1 in omega arith)

-- The order of a mapped node leaves its side.
cancelled :
    (id node : ℕ) (side : Side) (book : OrderBook)
    → IsExchange book
    → lookup id book.desk.order_map ≡ some node
    → (order_at book.desk.pool node).side ≡ side
    → IsExchange (
        cancel_limits side
          (order_at book.desk.pool node)
          node
          (record book { desk = retire id node book.desk }))
      × LosesSide side (order_at book.desk.pool node) book (
          cancel_limits side
            (order_at book.desk.pool node)
            node
            (record book { desk = retire id node book.desk }))
cancelled id node buy book v e d =
    let pool = book.desk.pool in
    let own = (v.mapped.leads id node e).0 in
    let listed = mapped-buy id node book v e d in
    let c =
      cancel_in-Cancels pool node buy (order_at pool node).qty book.buy_limits v.is_book.buys
        listed in
    (
      record {
        is_book = record {
          listed = λ m. let l = v.is_book.listed m in let k = c.counted m in omega arith;
          sells = v.is_book.sells;
          buys = c.sides;
        };
        mapped = rw own at (
            IsMapped-remove pool book.desk.order_map (resting book)
              (resting (cancel_limits buy (order_at pool node) node book)) node
              (λ m n k. let l = c.counted m in ground arith) v.mapped);
      },
      (c.loses, refl),
    )
cancelled id node sell book v e d =
    let pool = book.desk.pool in
    let own = (v.mapped.leads id node e).0 in
    let listed = mapped-sell id node book v e d in
    let c =
      cancel_in-Cancels pool node sell (order_at pool node).qty book.sell_limits v.is_book.sells
        listed in
    (
      record {
        is_book = record {
          listed = λ m. let l = v.is_book.listed m in let k = c.counted m in omega arith;
          sells = c.sides;
          buys = v.is_book.buys;
        };
        mapped = rw own at (
            IsMapped-remove pool book.desk.order_map (resting book)
              (resting (cancel_limits sell (order_at pool node) node book)) node
              (λ m n k. let l = c.counted m in ground arith) v.mapped);
      },
      (c.loses, refl),
    )

-- In a book that is well-formed together with its map, a cancellation leaves such a book. An unknown id
-- changes nothing; otherwise the order that the map leads to has this id and leaves its queue, and
-- nothing else leaves or moves.
pub cancel_order-cancels :
    (id : ℕ) (book : OrderBook)
    → IsExchange book
    → IsExchange (cancel_order id book)
      × ((lookup id book.desk.order_map ≡ none → cancel_order id book ≡ book)
          × ((node : ℕ)
              → lookup id book.desk.order_map ≡ some node
              → ((order_at book.desk.pool node).id ≡ id)
                × LosesSide
                    (order_at book.desk.pool node).side
                    (order_at book.desk.pool node)
                    book
                    (cancel_order id book)))
unfolding cancel_order
cancel_order-cancels id book v = elim (Option-cases (lookup id book.desk.order_map)) [
  | inl e ↦ rw (e, cancel_order) (v, (λ k. refl, λ node k. absurd cc))
  | inr (node, e) ↦
      let (w, l) = cancelled id node (order_at book.desk.pool node).side book v e refl in
      let own = (v.mapped.leads id node e).0 in
      rw (e, cancel_order)
        (w, (λ k. absurd cc, λ node' k. rw (← some-injective node node' k) (own, l)))
]
