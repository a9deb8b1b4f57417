-- ===== src/Core/Book/Laws.antt =====
-- How the calls of a consistent book relate to each other.
use real_time_market_data_fe.Base.{
  ℕ, ◌-◌, ◌<◌, ◌≤◌, ◌≡◌, sym, ap, subst, ◌∙◌, Bool, true, false, ◌==◌, ◌||◌, ltb, if◌then◌else◌,
  none, some, ◌∷◌, arith, refl,
}
use real_time_market_data_fe.Base.Table
use real_time_market_data_fe.Base.Table.{
  Table, erase, modify, erase-IsFresh, IsFresh-find, find-modify, find-erase, find-modify_self,
  find-modify_ne, erase-modify,
}
use real_time_market_data_fe.Base.Ordered.{
  less, greater, ordered_ext, less-IsOrder, greater-IsOrder,
}
use real_time_market_data_fe.Core.Order.{Order, OrderStore}
use real_time_market_data_fe.Core.Book.{
  OrderBook, add_order, cancel_order, execute_order, replace_order, add_to_side, remove_from_side,
  make_update, BookSnapshot, update_level, settle,
}
use real_time_market_data_fe.Core.Book.Sides.{store-add_to_side, store-remove_from_side}
use real_time_market_data_fe.Core.Book.Sums.{quantity, count, InRange, executed}
use real_time_market_data_fe.Core.Book.Effects.{
  incoming, add_order_fresh, cancel_order_live, execute_order_filled, replace_order_live,
}
use real_time_market_data_fe.Core.Book.Consistency.{
  IsConsistent, executed-Shows, add_order-IsConsistent, cancel_order-IsConsistent,
  execute_order-IsConsistent,
}
use real_time_market_data_fe.Core.Book.Top.{IsBest, top_prices}

-- A consistent book is determined by its symbol and its store.
book_ext :
    (b c : OrderBook)
    → IsConsistent b
    → IsConsistent c
    → b.symbol ≡ c.symbol
    → b.store ≡ c.store
    → b ≡ c
book_ext b c v w es et =
    let shown : (s : Bool) (p : ℕ)
        → (quantity b.store s p ≡ quantity c.store s p) × (count b.store s p ≡ count c.store s p) =
      λ s p. (rw et, rw et) in
    let bids : b.bids ≡ c.bids =
      ordered_ext greater greater-IsOrder b.bids c.bids v.ordered.0 w.ordered.0
        (λ p. ground (arith, v.shown true p, w.shown true p, shown true p)) in
    let asks : b.asks ≡ c.asks =
      ordered_ext less less-IsOrder b.asks c.asks v.ordered.1 w.ordered.1
        (λ p. ground (arith, v.shown false p, w.shown false p, shown false p)) in
    λ i. record { symbol = es i; store = et i; bids = bids i; asks = asks i }

symbol-add_to_side : (b : OrderBook) (side p x : ℕ) → (add_to_side b side p x).symbol ≡ b.symbol
unfolding add_to_side
symbol-add_to_side b side p x = ground arith

symbol-remove_from_side :
    (b : OrderBook) (side p x : ℕ) → (remove_from_side b side p x).symbol ≡ b.symbol
unfolding remove_from_side
symbol-remove_from_side b side p x = ground arith

found_first : (id : ℕ) (o : Order) (st : OrderStore) → Table.find id ((id, o) ∷ st) ≡ some o
unfolding Table.find
found_first id o st = ground arith

erase_first :
    (id : ℕ) (o : Order) (st : OrderStore) → Table.find id st ≡ none → erase id ((id, o) ∷ st) ≡ st
unfolding erase
erase_first id o st e = ground (arith, erase-IsFresh id st (IsFresh-find id st e))

-- Adding an order under a new id to a consistent book and cancelling it gives back the very same book, price maps
-- included; provided that no level's sum leaves 32 bits with the order in.
pub cancel_order-add_order :
    (b : OrderBook) (id side price qty ts : ℕ)
    → IsConsistent b
    → Table.find id b.store ≡ none
    → InRange (add_order b id side price qty ts).0.store
    → (cancel_order (add_order b id side price qty ts).0 id).0 ≡ b
cancel_order-add_order b id side price qty ts v e r =
    book_ext (cancel_order c id).0 b (cancel_order-IsConsistent c w id) v
      (ap (λ (x : OrderBook). x.symbol) cancelled
        ∙ symbol-remove_from_side _ o.side o.price o.remaining_quantity
        ∙ ap (λ (x : OrderBook). x.symbol) added
        ∙ symbol-add_to_side _ side price qty)
      (ap (λ (x : OrderBook). x.store) cancelled
        ∙ store-remove_from_side _ o.side o.price o.remaining_quantity
        ∙ ap (erase id) stored
        ∙ gone)
  where
    c : OrderBook
    c = (add_order b id side price qty ts).0

    w : IsConsistent c
    w = add_order-IsConsistent b v id side price qty ts r

    o : Order
    o = incoming b id side price qty ts

    added : c ≡ add_to_side (record b { store = (id, o) ∷ b.store }) side price qty
    added = add_order_fresh b id side price qty ts e

    stored : c.store ≡ (id, o) ∷ b.store
    stored = ap (λ (x : OrderBook). x.store) added ∙ store-add_to_side _ side price qty

    cancelled :
        (cancel_order c id).0
        ≡ remove_from_side
            (record c { store = erase id c.store })
            o.side
            o.price
            o.remaining_quantity
    cancelled =
        cancel_order_live c id
          (subst (λ t. Table.find id t ≡ some o) (sym stored) (found_first id o b.store))

    gone : erase id ((id, o) ∷ b.store) ≡ b.store
    gone = erase_first id o b.store e

find-executed :
    (st : OrderStore) (id j left : ℕ) (o : Order)
    → Table.find id st ≡ some o
    → Table.find j (executed st id left) ≡ (
        if id == j
        then (if left == 0 then none else some (record o { remaining_quantity = left }))
        else Table.find j st)
find-executed st id j left o e =
    let set : Order → Order = λ o'. record o' { remaining_quantity = left } in
    ground (arith, find-erase id j (modify id set st), find-modify id j set st, e)

execute_order_snapshot :
    (b : OrderBook) (id x : ℕ) (o : Order)
    → Table.find id b.store ≡ some o
    → (x == 0 || ltb o.remaining_quantity x) ≡ false
    → (execute_order b id x).1 ≡ some (make_update (execute_order b id x).0 o.timestamp)
unfolding execute_order
execute_order_snapshot b id x o e h = rw (e, execute_order) (ground (arith, h))

symbol-execute_order : (b : OrderBook) (id x : ℕ) → (execute_order b id x).0.symbol ≡ b.symbol
unfolding execute_order update_level settle
symbol-execute_order b id x = ground arith

-- The snapshot of a book: its symbol, the time, and the best prices of the orders that are live in it.
abbrev pub Tells : BookSnapshot → OrderBook → ℕ → Type 0
Tells u b timestamp =
    (u.symbol ≡ b.symbol)
    × (u.timestamp ≡ timestamp)
    × IsBest greater b.store true u.best_bid
    × IsBest less b.store false u.best_ask

make_update-Tells : (b : OrderBook) (ts : ℕ) → IsConsistent b → Tells (make_update b ts) b ts
unfolding make_update
make_update-Tells b ts v = (refl, refl, (top_prices b v).0, (top_prices b v).1)

-- In a consistent book whose sums are within 32 bits, executing `x` of a live order, above 0 and no
-- more than it has left, succeeds: the order is gone if it had
-- just `x` left and keeps the rest otherwise, every other order is as it was, and the snapshot has
-- the book's symbol, the order's timestamp, and as best bid and ask the highest price of the buy
-- orders and the lowest of the sell orders that are live after the execution.
pub execute_order_lem :
    (b : OrderBook) (id j x : ℕ) (o : Order)
    → IsConsistent b
    → InRange b.store
    → Table.find id b.store ≡ some o
    → 0 < x
    → x ≤ o.remaining_quantity
    → let (b', out) = execute_order b id x in
      (Table.find j b'.store ≡ (
        if id == j
        then (if x == o.remaining_quantity
            then none
            else some (record o { remaining_quantity = o.remaining_quantity - x }))
        else Table.find j b.store))
      × (b'.symbol ≡ b.symbol)
      × ((u : BookSnapshot) × ((out ≡ some u) × Tells u b' o.timestamp))
execute_order_lem b id j x o v r e pos le =
    let good : (x == 0 || ltb o.remaining_quantity x) ≡ false = ground arith in
    let left = o.remaining_quantity - x in
    let stored =
      ap (λ (c : OrderBook). c.store) (execute_order_filled b id x e good)
      ∙ (executed-Shows b v id x o e le r).1 in
    let found = find-executed b.store id j left o e in
    let after = execute_order-IsConsistent b v id x r in
    (
      ap (Table.find j) stored ∙ found ∙ ground arith,
      symbol-execute_order b id x,
      (
        make_update (execute_order b id x).0 o.timestamp,
        (
          execute_order_snapshot b id x o e good,
          make_update-Tells (execute_order b id x).0 o.timestamp after,
        ),
      ),
    )

-- For a live order, `replace_order` leaves the price maps of `cancel_order` followed by `add_order`
-- under the same id.
pub replace_order_lem :
    (b : OrderBook) (id price qty : ℕ) (o : Order)
    → Table.find id b.store ≡ some o
    → let replaced = (replace_order b id price qty).0 in
      let readded = (add_order (cancel_order b id).0 id o.side price qty o.timestamp).0 in
      (replaced.bids ≡ readded.bids) × (replaced.asks ≡ readded.asks)
unfolding add_to_side remove_from_side
replace_order_lem b id price qty o e = ground (
  arith,
  replace_order_live b id price qty e,
  cancel_order_live b id e,
  store-remove_from_side (record b { store = erase id b.store }) o.side o.price
      o.remaining_quantity,
  find-erase id id b.store,
  add_order_fresh (cancel_order b id).0 id o.side price qty o.timestamp,
)
