-- ===== src/Oms/Types.antt =====
-- include/qf/oms/oms_types.hpp. Texts are native strings; a symbol stands as its eight bytes in one
-- number.
use Prim.Native.String.{String}
use real_time_market_data_fe.Base.{ℕ, Bool, true, false}
use real_time_market_data_fe.Base.Words.{sub32}

pub data OrderState : Type 0 where
  new sent acked partial_fill filled cancelled rejected : OrderState

-- `OrderType` is left as its byte; a market order is 0.
pub record OmsOrder : Type 0 where
  pub order_id : ℕ
  pub symbol : ℕ
  pub side : ℕ
  pub type : ℕ
  pub price : ℕ
  pub quantity : ℕ
  pub filled_quantity : ℕ
  pub state : OrderState
  pub created : ℕ
  pub sent_at : ℕ
  pub acked_at : ℕ
  pub last_fill : ℕ

-- `OmsOrder::remaining`
unfoldable pub remaining : OmsOrder → ℕ
remaining o = sub32 o.quantity o.filled_quantity

abbrev pub is_terminal : OrderState → Bool
is_terminal filled = true
is_terminal cancelled = true
is_terminal rejected = true
is_terminal _ = false

pub record FillReport : Type 0 where
  pub order_id : ℕ
  pub fill_price : ℕ
  pub fill_quantity : ℕ
  pub timestamp : ℕ
  pub is_final : Bool

pub record OrderEvent : Type 0 where
  pub order_id : ℕ
  pub from_state : OrderState
  pub to_state : OrderState
  pub timestamp : ℕ
  pub reason : String
