-- ===== src/Core/Order.antt =====
-- include/qf/core/order.hpp, price_level.hpp and order_store.hpp, with src/core/order_store.cpp.
use real_time_market_data_fe.Base.{
  ℕ, ◌-◌, Bool, true, false, ◌==◌, ltb, leb, if◌then◌else◌, Option, none, some, ◌∷◌,
}
use real_time_market_data_fe.Base.Table
use real_time_market_data_fe.Base.Table.{Table}
use real_time_market_data_fe.Base.Words.{add32}

-- `enum class Side : uint8_t`. Sides come off the wire unchecked, so any byte may occur; the order
-- book tests for `Buy`, and treats the rest as `Sell`.
abbrev pub buy : ℕ
buy = 1

abbrev pub sell : ℕ
sell = 2

-- A symbol is its `as_key()`: eight bytes read as a little-endian number, which determines them.
pub record Order : Type 0 where
  pub order_id : ℕ
  pub symbol : ℕ
  pub side : ℕ
  pub price : ℕ
  pub remaining_quantity : ℕ
  pub timestamp : ℕ

pub record PriceLevel : Type 0 where
  pub price : ℕ
  pub total_quantity : ℕ
  pub order_count : ℕ

-- `PriceLevel(Price p)`; the default constructor is the level at price 0.
abbrev pub empty_level : ℕ → PriceLevel
empty_level p = record { price = p; total_quantity = 0; order_count = 0 }

-- `PriceLevel::add`
unfoldable pub add_quantity : PriceLevel → ℕ → PriceLevel
add_quantity l qty = record l {
  total_quantity = add32 l.total_quantity qty;
  order_count = add32 l.order_count 1;
}

-- `PriceLevel::remove`, with the flag that it returns. `--order_count` runs only above 0.
unfoldable pub remove_quantity : PriceLevel → ℕ → PriceLevel × Bool
remove_quantity l qty =
    let count = if ltb 0 l.order_count then l.order_count - 1 else l.order_count in
    (
      record l {
        total_quantity = if leb l.total_quantity qty then 0 else l.total_quantity - qty;
        order_count = count;
      },
      count == 0,
    )

-- `PriceLevel::modify`
unfoldable pub modify_quantity : PriceLevel → ℕ → ℕ → PriceLevel
modify_quantity l old_qty new_qty =
    let left = if leb l.total_quantity old_qty then 0 else l.total_quantity - old_qty in
    record l { total_quantity = add32 left new_qty }

-- `OrderStore`: the live orders by id.
abbrev pub OrderStore : Type 0
OrderStore = Table Order

-- `OrderStore::add`; `emplace` inserts nothing at a key that is there.
unfoldable pub add : OrderStore → Order → OrderStore × Bool
add store order = elim (Table.find order.order_id store) [
  | none ↦ ((order.order_id, order) ∷ store, true)
  | some o ↦ (store, false)
]

-- `OrderStore::remove`
unfoldable pub remove : OrderStore → ℕ → OrderStore × Option Order
remove store id = elim (Table.find id store) [
  | none ↦ (store, none)
  | some o ↦ (Table.erase id store, some o)
]

-- `OrderStore::update_price_qty`
unfoldable pub update_price_qty : OrderStore → ℕ → ℕ → ℕ → OrderStore × Bool
update_price_qty store id new_price new_qty = elim (Table.find id store) [
  | none ↦ (store, false)
  | some o ↦ (
    Table.modify id (λ o. record o { price = new_price; remaining_quantity = new_qty }) store,
    true,
  )
]

-- `OrderStore::reduce_quantity`; the subtraction is guarded.
unfoldable pub reduce_quantity : OrderStore → ℕ → ℕ → OrderStore × Bool
reduce_quantity store id amount = elim (Table.find id store) [
  | none ↦ (store, false)
  | some o ↦ if ltb o.remaining_quantity amount then (store, false) else (
    Table.modify id (λ o. record o { remaining_quantity = o.remaining_quantity - amount }) store,
    true,
  )
]
