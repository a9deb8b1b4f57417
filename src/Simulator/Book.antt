-- ===== src/Simulator/Book.antt =====
-- include/qf/simulator/sim_order_book.hpp and src/simulator/sim_order_book.cpp. The order of the
-- unordered map is that of the list.
pub mod Best
use mathlib.Core.Option
use real_time_market_data_fe.Base.{
  ℕ, ◌-◌, zero, suc, Bool, true, false, not, ◌==◌, ltb, leb, ◌&&◌, ◌||◌, if◌then◌else◌, Option,
  none, some, List, [], ◌∷◌, ◌++◌, map, length, get_elem?,
}
use real_time_market_data_fe.Base.Table
use real_time_market_data_fe.Base.Ordered.{less, greater}
use real_time_market_data_fe.Core.Order.{Order, OrderStore, buy, sell}

pub record SimOrderBook : Type 0 where
  pub orders : OrderStore
  pub order_ids : List ℕ

abbrev pub new_sim_book : SimOrderBook
new_sim_book = record { orders = []; order_ids = [] }

-- `rebuild_ids`
abbrev pub rebuild_ids : SimOrderBook → SimOrderBook
rebuild_ids b = record b { order_ids = map (λ (e : ℕ × Order). e.0) b.orders }

unfoldable pub add : SimOrderBook → Order → SimOrderBook × Bool
add b order = elim (Table.find order.order_id b.orders) [
  | some o ↦ (b, false)
  | none ↦ (
    record {
      orders = (order.order_id, order) ∷ b.orders;
      order_ids = b.order_ids ++ (order.order_id ∷ []);
    },
    true,
  )
]

unfoldable pub cancel : SimOrderBook → ℕ → SimOrderBook × Option Order
cancel b id = elim (Table.find id b.orders) [
  | none ↦ (b, none)
  | some o ↦ (rebuild_ids (record b { orders = Table.erase id b.orders }), some o)
]

-- `execute`; the subtraction runs only at `qty < order.remaining_quantity`.
unfoldable pub execute : SimOrderBook → ℕ → ℕ → SimOrderBook × Option Order
execute b id qty = elim (Table.find id b.orders) [
  | none ↦ (b, none)
  | some o ↦
      if leb o.remaining_quantity qty
      then (
        rebuild_ids (record b { orders = Table.erase id b.orders }),
        some (record o { remaining_quantity = 0 }),
      )
      else (let left = record o { remaining_quantity = o.remaining_quantity - qty } in
          (record b { orders = Table.modify id (λ _. left) b.orders }, some left))
]

unfoldable pub replace : SimOrderBook → ℕ → ℕ → ℕ → SimOrderBook × Bool
replace b id new_price new_qty = elim (Table.find id b.orders) [
  | none ↦ (b, false)
  | some o ↦ (
    record b {
      orders =
          Table.modify id (λ o'. record o' { price = new_price; remaining_quantity = new_qty })
            b.orders;
    },
    true,
  )
]

unfoldable pub clear : SimOrderBook → SimOrderBook
clear b = new_sim_book

-- One element out of a list; `draw n` is what `uniform_int_distribution(0, n)` gives.
abbrev pub pick_one : (ℕ → ℕ) → List ℕ → Option ℕ
pick_one draw [] = none
pick_one draw (x ∷ xs) = get_elem? (x ∷ xs) (draw (length xs))

unfoldable pub random_live_order : SimOrderBook → (ℕ → ℕ) → Option ℕ
random_live_order b draw = pick_one draw b.order_ids

abbrev pub ids_on : ℕ → OrderStore → List ℕ
ids_on side [] = []
ids_on side ((id, o) ∷ t) = let rest = ids_on side t in if o.side == side then id ∷ rest else rest

-- The overload with a side.
unfoldable pub random_live_order_on : SimOrderBook → ℕ → (ℕ → ℕ) → Option ℕ
random_live_order_on b side draw = pick_one draw (ids_on side b.orders)

-- `!best || better(price, *best)`
abbrev pub improves : (ℕ → ℕ → Bool) → ℕ → Option (ℕ × ℕ) → Bool
improves better price none = true
improves better price (some (id, best)) = better price best

-- The loop of the four `best_...` functions over the orders of one side: the best order so far, by id
-- and price. They read the price only where there is an id.
unfoldable pub best_loop : (ℕ → ℕ → Bool) → ℕ → Option (ℕ × ℕ) → OrderStore → Option (ℕ × ℕ)
best_loop better side acc [] = acc
best_loop better side acc ((id, o) ∷ t) =
    let takes = o.side == side && improves better o.price acc in
    best_loop better side (if takes then some (id, o.price) else acc) t

unfoldable pub best_bid_order : SimOrderBook → Option ℕ
best_bid_order b = Option.map (λ (r : ℕ × ℕ). r.0) (best_loop greater buy none b.orders)

unfoldable pub best_ask_order : SimOrderBook → Option ℕ
best_ask_order b = Option.map (λ (r : ℕ × ℕ). r.0) (best_loop less sell none b.orders)

unfoldable pub best_bid : SimOrderBook → Option ℕ
best_bid b = Option.map (λ (r : ℕ × ℕ). r.1) (best_loop greater buy none b.orders)

unfoldable pub best_ask : SimOrderBook → Option ℕ
best_ask b = Option.map (λ (r : ℕ × ℕ). r.1) (best_loop less sell none b.orders)
