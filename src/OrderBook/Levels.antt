-- ===== src/OrderBook/Levels.antt =====
-- `Limit::total_volume` in the whole book.
use knowledge_acquisition.Prelude.{
  ℕ, ◌<◌, ◌≡◌, refl, ap, arith, false, List, [], ◌∷◌, length, set, total-append, ◌==◌, ==_refl,
  Bool-cases, inl, inr,
}
use knowledge_acquisition.OrderBook.{
  Side, buy, sell, Order, Limit, OrderBook, order_at, before, quantity_mod, match_order, place,
  add_limits, rest_on, rest_order, limit_order, book_order,
}
use knowledge_acquisition.OrderBook.Match.{count, view, order_at-set, IsListed}
use knowledge_acquisition.OrderBook.Sweep.{nodes_of, view_append, sweep-Sweeps}
use knowledge_acquisition.OrderBook.Book.{IsBook, match_order-Matches}
use knowledge_acquisition.OrderBook.Totals.{
  HasWords, HasTotals, HasTotals-same, HasWords-set, sweep-Sums,
}

pub record HasVolumes (book : OrderBook) : Type 0 where
  pub words : HasWords book.desk.pool
  pub sells : HasTotals book.desk.pool book.sell_limits
  pub buys : HasTotals book.desk.pool book.buy_limits

match_order-HasVolumes :
    (side : Side) (price qty : ℕ) (book : OrderBook)
    → IsBook book
    → qty < quantity_mod
    → HasVolumes book
    → HasVolumes (match_order side price qty book).0
      × ((match_order side price qty book).1 < quantity_mod)
unfolding match_order
match_order-HasVolumes buy price qty book v q h =
    let listed : IsListed book.desk.pool (nodes_of book.sell_limits) =
      λ m. (let l = v.listed m in (ground arith, λ p. ground arith)) in
    let s = sweep-Sweeps sell buy price qty book.sell_limits book.desk v.sells listed in
    let t = sweep-Sums buy price qty book.sell_limits book.desk listed q h.words h.sells in
    (
      record {
        words = t.words;
        sells = t.totals;
        buys =
            HasTotals-same book.desk.pool _ book.buy_limits
              (λ m l. s.same m (let k = v.listed m in ground arith)) h.buys;
      },
      t.less,
    )
match_order-HasVolumes sell price qty book v q h =
    let listed : IsListed book.desk.pool (nodes_of book.buy_limits) =
      λ m. (let l = v.listed m in (ground arith, λ p. ground arith)) in
    let s = sweep-Sweeps buy sell price qty book.buy_limits book.desk v.buys listed in
    let t = sweep-Sums sell price qty book.buy_limits book.desk listed q h.words h.buys in
    (
      record {
        words = t.words;
        buys = t.totals;
        sells =
            HasTotals-same book.desk.pool _ book.sell_limits
              (λ m l. s.same m (let k = v.listed m in ground arith)) h.sells;
      },
      t.less,
    )

book_order-HasTotals :
    (pool : List Order) (side : Side) (price node qty : ℕ) (limits : List (ℕ × Limit))
    → (order_at pool node).qty ≡ qty
    → HasTotals pool limits
    → HasTotals pool (book_order side price node qty limits)
unfolding book_order
book_order-HasTotals pool side price node qty [] e a = (rw e (omega arith), tt)
book_order-HasTotals pool side price node qty ((p, level) ∷ limits) e (t, a) =
    elim (Bool-cases (p == price)) [
      | inl f ↦
          let v = view_append pool level.orders (node ∷ []) in
          let s =
            total-append (λ (o : Order). o.qty) (view pool level.orders)
              (order_at pool node ∷ []) in
          rw (f, book_order) (rw (v, s, e) (omega arith), a)
      | inr f ↦ elim (Bool-cases (before side price p)) [
        | inl g ↦ rw (f, g, book_order) (rw e (omega arith), (t, a))
        | inr g ↦
            rw (f, g, book_order) (t, book_order-HasTotals pool side price node qty limits e a)
      ]
    ]

-- A free node is written and booked.
add_limits-HasVolumes :
    (side : Side) (order : Order) (node : ℕ) (free_list : List ℕ) (book : OrderBook)
    → IsBook book
    → book.desk.free_list ≡ node ∷ free_list
    → order.qty < quantity_mod
    → HasVolumes book
    → HasVolumes
        (add_limits side order node (record book { desk = place node free_list order book.desk }))
add_limits-HasVolumes side order node free_list book v f q h =
    by_side side (HasWords-set pool node order l q h.words)
      (HasTotals-same pool pool' book.sell_limits
        (λ m k.
          rw (apart m (let i = v.listed m in ground arith)) at (order_at-set pool node m order l))
        h.sells)
      (HasTotals-same pool pool' book.buy_limits
        (λ m k.
          rw (apart m (let i = v.listed m in ground arith)) at (order_at-set pool node m order l))
        h.buys)
  where
    pool : List Order
    pool = book.desk.pool

    pool' : List Order
    pool' = set book.desk.pool node order

    l : node < length book.desk.pool
    l =
        let one = ==_refl node in
        let i = v.listed node in
        let here : 0 < count node book.desk.free_list = rw f (ground arith) in ground arith

    apart : (m : ℕ) → count m book.desk.free_list ≡ 0 → (node == m) ≡ false
    apart m z = elim (Bool-cases (node == m)) [
      | inl t ↦ let k = rw f at z in absurd (ground arith)
      | inr t ↦ t
    ]

    own : (order_at pool' node).qty ≡ order.qty
    own =
        let one = ==_refl node in
        ap (λ (o : Order). o.qty) (rw one at (order_at-set book.desk.pool node node order l))

    by_side :
        (side : Side)
        → HasWords pool'
        → HasTotals pool' book.sell_limits
        → HasTotals pool' book.buy_limits
        → HasVolumes (
            add_limits side order node
              (record book { desk = place node free_list order book.desk }))
    by_side buy w s b = record {
      words = w;
      sells = s;
      buys = book_order-HasTotals pool' buy order.price node order.qty book.buy_limits own b;
    }
    by_side sell w s b = record {
      words = w;
      sells = book_order-HasTotals pool' sell order.price node order.qty book.sell_limits own s;
      buys = b;
    }

rest_on-HasVolumes :
    (free_list : List ℕ) (order : Order) (book : OrderBook)
    → IsBook book
    → book.desk.free_list ≡ free_list
    → order.qty < quantity_mod
    → HasVolumes book
    → HasVolumes (rest_on free_list order book)
rest_on-HasVolumes [] order book v f q h = h
rest_on-HasVolumes (node ∷ free_list) order book v f q h =
    add_limits-HasVolumes order.side order node free_list book v f q h

pub limit_order-HasVolumes :
    (id price qty : ℕ) (side : Side) (book : OrderBook)
    → IsBook book
    → qty < quantity_mod
    → HasVolumes book
    → HasVolumes (limit_order id price qty side book)
unfolding limit_order rest_order
limit_order-HasVolumes id price qty side book v q h =
    let (matched, left) = match_order side price qty book in
    let w = (match_order-Matches side price qty book v).0 in
    let (k, l) = match_order-HasVolumes side price qty book v q h in
    elim (Bool-cases (left == 0)) [
      | inl t ↦ rw (t, limit_order, rest_order) k
      | inr t ↦
          rw (t, limit_order, rest_order)
            (rest_on-HasVolumes matched.desk.free_list
              (record { id = id; price = price; qty = left; side = side }) matched w refl l k)
    ]
