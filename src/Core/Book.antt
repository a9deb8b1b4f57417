-- ===== src/Core/Book.antt =====
-- include/qf/core/order_book.hpp and src/core/order_book.cpp: one instrument's book. A call returns
-- the new book beside its result.
pub mod Levels
pub mod Sides
pub mod Sums
pub mod Range
pub mod Effects
pub mod Consistency
pub mod Runs
pub mod Top
pub mod Laws
use mathlib.Core.Option
use real_time_market_data_fe.Base.{
  ℕ, ◌-◌, zero, suc, Bool, true, false, ◌==◌, ltb, ◌&&◌, ◌||◌, if◌then◌else◌, Option, none, some,
  List, [], ◌∷◌,
}
use real_time_market_data_fe.Base.Table
use real_time_market_data_fe.Base.Table.{Table}
use real_time_market_data_fe.Base.Ordered.{less, greater, insert}
use real_time_market_data_fe.Base.Words.{sub32}
use real_time_market_data_fe.Core.Order.{
  Order, PriceLevel, OrderStore, buy, empty_level, add_quantity, remove_quantity, add, remove,
}

pub record DepthLevel : Type 0 where
  pub price : ℕ
  pub quantity : ℕ
  pub order_count : ℕ

pub record BookSnapshot : Type 0 where
  pub symbol : ℕ
  pub best_bid : Option ℕ
  pub best_ask : Option ℕ
  pub timestamp : ℕ

-- Bids stand highest price first, asks lowest price first.
pub record OrderBook : Type 0 where
  pub symbol : ℕ
  pub store : OrderStore
  pub bids : Table PriceLevel
  pub asks : Table PriceLevel

unfoldable pub new_book : ℕ → OrderBook
new_book symbol = record { symbol = symbol; store = []; bids = []; asks = [] }

-- `*begin()`'s key
abbrev pub first_price : Table PriceLevel → Option ℕ
first_price [] = none
first_price ((p, l) ∷ ls) = some p

abbrev pub first_quantity : Table PriceLevel → ℕ
first_quantity [] = 0
first_quantity ((p, l) ∷ ls) = l.total_quantity

unfoldable pub best_bid : OrderBook → Option ℕ
best_bid b = first_price b.bids

unfoldable pub best_ask : OrderBook → Option ℕ
best_ask b = first_price b.asks

unfoldable pub best_bid_qty : OrderBook → ℕ
best_bid_qty b = first_quantity b.bids

unfoldable pub best_ask_qty : OrderBook → ℕ
best_ask_qty b = first_quantity b.asks

unfoldable pub make_update : OrderBook → ℕ → BookSnapshot
unfolding best_bid best_ask
make_update b timestamp = record {
  symbol = b.symbol;
  best_bid = best_bid b;
  best_ask = best_ask b;
  timestamp = timestamp;
}

-- `levels[price]` makes a default level where there is none; its price is then filled in.
abbrev pub slot : ℕ → Table PriceLevel → PriceLevel
slot price levels =
    let level = Option.get_or (Table.find price levels) (empty_level 0) in
    if level.price == 0 then record level { price = price } else level

-- One side's map in `add_to_side`.
unfoldable pub deposit : (ℕ → ℕ → Bool) → ℕ → ℕ → Table PriceLevel → Table PriceLevel
unfolding add_quantity
deposit before price qty levels = insert before price (add_quantity (slot price levels) qty) levels

-- One side's map in `remove_from_side`.
unfoldable pub withdraw : ℕ → ℕ → Table PriceLevel → Table PriceLevel
unfolding remove_quantity
withdraw price qty levels = elim (Table.find price levels) [
  | none ↦ levels
  | some level ↦
      if (remove_quantity level qty).1
      then Table.erase price levels
      else Table.modify price (λ l. (remove_quantity l qty).0) levels
]

unfoldable pub add_to_side : OrderBook → ℕ → ℕ → ℕ → OrderBook
add_to_side b side price qty =
    if side == buy
    then record b { bids = deposit greater price qty b.bids }
    else record b { asks = deposit less price qty b.asks }

unfoldable pub remove_from_side : OrderBook → ℕ → ℕ → ℕ → OrderBook
remove_from_side b side price qty =
    if side == buy
    then record b { bids = withdraw price qty b.bids }
    else record b { asks = withdraw price qty b.asks }

-- One side's map in the lambda of `execute_order`; the flag says that the level was found.
-- `order_count--` wraps at 0.
unfoldable pub reduce_level : ℕ → ℕ → Bool → Table PriceLevel → Table PriceLevel × Bool
reduce_level price exec_qty filled levels = elim (Table.find price levels) [
  | none ↦ (levels, false)
  | some level ↦
      let total = sub32 level.total_quantity exec_qty in
      let count = sub32 level.order_count 1 in
      (
        if filled
            then (if count == 0
                then Table.erase price levels
                else Table.modify price
                    (λ l. record l { total_quantity = total; order_count = count }) levels)
            else Table.modify price (λ l. record l { total_quantity = total }) levels,
        true,
      )
]

-- The end of the lambda: `store_.remove(id)`, reached for a filled order whose level was found.
unfoldable pub settle : OrderBook → ℕ → Bool → Bool → OrderBook
settle b id found filled =
    if found && filled then record b { store = Table.erase id b.store } else b

unfoldable pub update_level : OrderBook → ℕ → Order → ℕ → ℕ → OrderBook
unfolding settle
update_level b id order left exec_qty =
    let filled = left == 0 in
    if order.side == buy
    then (let (levels, found) = reduce_level order.price exec_qty filled b.bids in
        settle (record b { bids = levels }) id found filled)
    else (let (levels, found) = reduce_level order.price exec_qty filled b.asks in
        settle (record b { asks = levels }) id found filled)

unfoldable pub add_order : OrderBook → ℕ → ℕ → ℕ → ℕ → ℕ → OrderBook × Option BookSnapshot
add_order b id side price qty timestamp =
    let order : Order = record {
      order_id = id;
      symbol = b.symbol;
      side = side;
      price = price;
      remaining_quantity = qty;
      timestamp = timestamp;
    } in
    let (store, inserted) = add b.store order in
    let b' = add_to_side (record b { store = store }) side price qty in
    if inserted then (b', some (make_update b' timestamp)) else (b, none)

unfoldable pub cancel_order : OrderBook → ℕ → OrderBook × Option BookSnapshot
cancel_order b id =
    let (store, removed) = remove b.store id in
    elim removed [
      | none ↦ (b, none)
      | some o ↦
          let b' =
            remove_from_side (record b { store = store }) o.side o.price o.remaining_quantity in
          (b', some (make_update b' o.timestamp))
    ]

-- `remaining_quantity -= exec_qty` runs only at `exec_qty <= remaining_quantity`.
unfoldable pub execute_order : OrderBook → ℕ → ℕ → OrderBook × Option BookSnapshot
execute_order b id exec_qty = elim (Table.find id b.store) [
  | none ↦ (b, none)
  | some o ↦
      let left = o.remaining_quantity - exec_qty in
      let reduced = Table.modify id (λ x. record x { remaining_quantity = left }) b.store in
      let b' = update_level (record b { store = reduced }) id o left exec_qty in
      if exec_qty == 0 || ltb o.remaining_quantity exec_qty
      then (b, none)
      else (b', some (make_update b' o.timestamp))
]

unfoldable pub replace_order : OrderBook → ℕ → ℕ → ℕ → OrderBook × Option BookSnapshot
replace_order b id new_price new_qty = elim (Table.find id b.store) [
  | none ↦ (b, none)
  | some o ↦
      let cleared = remove_from_side b o.side o.price o.remaining_quantity in
      let moved =
        Table.modify id (λ x. record x { price = new_price; remaining_quantity = new_qty })
          b.store in
      let b' = add_to_side (record cleared { store = moved }) o.side new_price new_qty in
      (b', some (make_update b' o.timestamp))
]

-- `bid_depth` and `ask_depth`: the first `n` levels of one side's map.
unfoldable pub depth : ℕ → Table PriceLevel → List DepthLevel
depth zero ls = []
depth (suc n) [] = []
depth (suc n) ((p, l) ∷ ls) =
    record { price = p; quantity = l.total_quantity; order_count = l.order_count } ∷ depth n ls

unfoldable pub top_n_levels : OrderBook → ℕ → ℕ → List DepthLevel
unfolding depth
top_n_levels b side n = if side == buy then depth n b.bids else depth n b.asks
