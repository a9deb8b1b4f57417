-- ===== src/Core/Book/Effects.antt =====
-- What each call of a book does, in terms of the store and the two maps.
use real_time_market_data_fe.Base.{
  ℕ, ◌-◌, ◌≡◌, true, false, ◌==◌, ◌||◌, ltb, none, some, ◌∷◌, arith,
}
use real_time_market_data_fe.Base.Table
use real_time_market_data_fe.Base.Table.{
  Table, HasUniqueKeys, HasUniqueKeys-erase, HasUniqueKeys-modify, IsFresh-find, total, total-cons,
  erase-modify, erase, modify, total-erase, total-modify, total-find, find-modify_self,
}
use real_time_market_data_fe.Core.Order.{Order, add, remove}
use real_time_market_data_fe.Core.Book.{
  OrderBook, add_order, cancel_order, execute_order, replace_order, add_to_side, remove_from_side,
  update_level,
}

-- The order that `add_order` puts into the store.
abbrev pub incoming : OrderBook → ℕ → ℕ → ℕ → ℕ → ℕ → Order
incoming b id side price qty timestamp = record {
  order_id = id;
  symbol = b.symbol;
  side = side;
  price = price;
  remaining_quantity = qty;
  timestamp = timestamp;
}

-- What a successful call leaves, in terms of the two maps' changes.
pub add_order_fresh :
    (b : OrderBook) (id side price qty ts : ℕ)
    → Table.find id b.store ≡ none
    → (add_order b id side price qty ts).0
      ≡ add_to_side
          (record b { store = (id, incoming b id side price qty ts) ∷ b.store })
          side
          price
          qty
unfolding add_order add
add_order_fresh b id side price qty ts e = rw (e, add_order, add)

pub add_order_duplicate :
    (b : OrderBook) (id side price qty ts : ℕ) {o : Order}
    → Table.find id b.store ≡ some o
    → add_order b id side price qty ts ≡ (b, none)
unfolding add_order add
add_order_duplicate b id side price qty ts e = rw (e, add_order, add)

pub cancel_order_live :
    (b : OrderBook) (id : ℕ) {o : Order}
    → Table.find id b.store ≡ some o
    → (cancel_order b id).0
      ≡ remove_from_side
          (record b { store = Table.erase id b.store })
          o.side
          o.price
          o.remaining_quantity
unfolding cancel_order remove
cancel_order_live b id {o} e = ground (arith, e)

pub cancel_order_missing :
    (b : OrderBook) (id : ℕ) → Table.find id b.store ≡ none → cancel_order b id ≡ (b, none)
unfolding cancel_order remove
cancel_order_missing b id e = rw (e, cancel_order, remove)

pub execute_order_missing :
    (b : OrderBook) (id x : ℕ) → Table.find id b.store ≡ none → execute_order b id x ≡ (b, none)
unfolding execute_order
execute_order_missing b id x e = rw (e, execute_order)

pub execute_order_refused :
    (b : OrderBook) (id x : ℕ) {o : Order}
    → Table.find id b.store ≡ some o
    → (x == 0 || ltb o.remaining_quantity x) ≡ true
    → execute_order b id x ≡ (b, none)
unfolding execute_order
execute_order_refused b id x e h = rw (e, execute_order) (ground arith)

pub execute_order_filled :
    (b : OrderBook) (id x : ℕ) {o : Order}
    → Table.find id b.store ≡ some o
    → (x == 0 || ltb o.remaining_quantity x) ≡ false
    → (execute_order b id x).0 ≡ (
        let left = o.remaining_quantity - x in
        update_level
          (record b { store = modify id (λ y. record y { remaining_quantity = left }) b.store })
          id
          o
          left
          x)
unfolding execute_order
execute_order_filled b id x e h = rw (e, execute_order) (ground arith)

pub replace_order_missing :
    (b : OrderBook) (id p q : ℕ) → Table.find id b.store ≡ none → replace_order b id p q ≡ (b, none)
unfolding replace_order
replace_order_missing b id p q e = rw (e, replace_order)

pub replace_order_live :
    (b : OrderBook) (id p q : ℕ) {o : Order}
    → Table.find id b.store ≡ some o
    → (replace_order b id p q).0
      ≡ add_to_side
          (record (remove_from_side b o.side o.price o.remaining_quantity) {
            store = modify id (λ y. record y { price = p; remaining_quantity = q }) b.store;
          })
          o.side
          p
          q
unfolding replace_order
replace_order_live b id p q e = rw (e, replace_order)
