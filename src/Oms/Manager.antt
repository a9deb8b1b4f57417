-- ===== src/Oms/Manager.antt =====
-- include/qf/oms/order_manager.hpp and src/oms/order_manager.cpp. A call takes its readings of
-- `Clock::now_ns` as a function from the reading's place in the call. The texts of errors are left
-- out of the results.
pub mod Replay
pub mod Calls
pub mod Fills
use mathlib.Core.Option
use Prim.Native.String.{String, []}
use real_time_market_data_fe.Base.{
  ℕ, ◌+◌, Bool, true, false, ◌==◌, leb, if◌then◌else◌, Option, none, some, List, [], ◌∷◌, length,
}
use real_time_market_data_fe.Base.Table
use real_time_market_data_fe.Base.Table.{Table}
use real_time_market_data_fe.Base.Words.{add32, add64}
use real_time_market_data_fe.Oms.Types.{
  OrderState, new, sent, acked, partial_fill, filled, cancelled, rejected, OmsOrder, FillReport,
  OrderEvent,
}
use real_time_market_data_fe.Oms.Transitions.{transition, is_valid}
use real_time_market_data_fe.Oms.Journal.{OrderJournal, new_journal, append}

-- `strategy::Decision`, the input
pub record Decision : Type 0 where
  pub symbol : ℕ
  pub side : ℕ
  pub quantity : ℕ
  pub order_type : ℕ
  pub limit_price : ℕ
  pub urgency : ℕ

pub record OrderManager : Type 0 where
  pub orders : Table OmsOrder
  pub journal : OrderJournal
  pub next_id : ℕ

abbrev pub new_order_manager : OrderManager
new_order_manager = record { orders = []; journal = new_journal; next_id = 1 }

pub record OmResult : Type 0 where
  pub success : Bool
  pub order_id : ℕ

-- The callback that the constructor installs: it journals the event.
unfoldable pub on_event : OrderJournal → Option OrderEvent → OrderJournal
on_event j none = j
on_event j (some e) = (append j e).0

-- `apply_transition` on the stored order `o` of key `id`.
unfoldable pub apply_transition :
    OrderManager → ℕ → OmsOrder → OrderState → String → ℕ → OrderManager × OmResult
apply_transition m id o target reason now =
    let tr = transition o target reason now in
    (
      record m { orders = Table.modify id (λ _. tr.0) m.orders; journal = on_event m.journal tr.1 },
      record { success = is_valid o.state target; order_id = o.order_id },
    )

-- The order that `submit` builds.
unfoldable pub make_order : Decision → ℕ → ℕ → OmsOrder
make_order d id now = record {
  order_id = id;
  symbol = d.symbol;
  side = d.side;
  type = d.order_type;
  price = d.limit_price;
  quantity = d.quantity;
  filled_quantity = 0;
  state = new;
  created = now;
  sent_at = 0;
  acked_at = 0;
  last_fill = 0;
}

unfoldable pub submit : OrderManager → Decision → (ℕ → ℕ) → OrderManager × OmResult
submit m d now =
    if d.quantity == 0
    then (m, record { success = false; order_id = 0 })
    else let id = m.next_id in
      let order = make_order d id (now 0) in
      let stored = record m { orders = Table.assign id order m.orders; next_id = add64 id 1 } in
      let tr = apply_transition stored id order sent "submit" (now 1) in
      if (tr.1).success
      then (
        record (tr.0) {
          orders = Table.modify id (λ o. record o { sent_at = now 2 }) (tr.0).orders;
        },
        record { success = true; order_id = id },
      )
      else (record (tr.0) { orders = Table.erase id (tr.0).orders }, tr.1)

-- `find_order` and the early return of the handlers when there is no order.
unfoldable pub with_order :
    OrderManager → ℕ → (OmsOrder → OrderManager × OmResult) → OrderManager × OmResult
with_order m id f = elim (Table.find id m.orders) [
  | none ↦ (m, record { success = false; order_id = id })
  | some o ↦ f o
]

unfoldable pub on_ack : OrderManager → ℕ → (ℕ → ℕ) → OrderManager × OmResult
on_ack m id now = with_order m id (λ o.
    let tr = apply_transition m id o acked "ack" (now 0) in
    if (tr.1).success
    then (
      record (tr.0) { orders = Table.modify id (λ p. record p { acked_at = now 1 }) (tr.0).orders },
      tr.1,
    )
    else tr)

-- The order as `on_fill` has it before the transition.
unfoldable pub take_fill : OmsOrder → FillReport → ℕ → OmsOrder
take_fill o r now = record o {
  filled_quantity = add32 o.filled_quantity r.fill_quantity;
  last_fill = if r.timestamp == 0 then now else r.timestamp;
}

unfoldable pub fill_target : OmsOrder → OrderState
fill_target o = if leb o.quantity o.filled_quantity then filled else partial_fill

unfoldable pub on_fill : OrderManager → FillReport → (ℕ → ℕ) → OrderManager × OmResult
on_fill m r now = with_order m r.order_id (λ o.
    let p = take_fill o r (now 0) in
    let written = record m { orders = Table.modify r.order_id (λ _. p) m.orders } in
    apply_transition written r.order_id p (fill_target p) "fill" (now 1))

unfoldable pub cancel : OrderManager → ℕ → (ℕ → ℕ) → OrderManager × OmResult
cancel m id now = with_order m id (λ o. apply_transition m id o cancelled "cancel" (now 0))

unfoldable pub on_reject : OrderManager → ℕ → String → (ℕ → ℕ) → OrderManager × OmResult
on_reject m id reason now = with_order m id (λ o. apply_transition m id o rejected reason (now 0))

unfoldable pub get_order : OrderManager → ℕ → Option OmsOrder
get_order m id = Table.find id m.orders

unfoldable pub order_count : OrderManager → ℕ
order_count m = length m.orders
