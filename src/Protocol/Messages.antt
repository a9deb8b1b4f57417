-- ===== src/Protocol/Messages.antt =====
-- include/qf/protocol/messages.hpp: the five messages and their header, as they stand in memory.
use real_time_market_data_fe.Base.{ℕ, ◌^◌, ◌<◌}

pub record MessageHeader : Type 0 where
  pub message_length : ℕ
  pub message_type : ℕ
  pub timestamp : ℕ

-- `sizeof(MessageHeader)`
abbrev pub header_size : ℕ
header_size = 11

pub record AddOrder : Type 0 where
  pub order_id : ℕ
  pub side : ℕ
  pub symbol : ℕ
  pub price : ℕ
  pub quantity : ℕ

pub record CancelOrder : Type 0 where
  pub order_id : ℕ

pub record ExecuteOrder : Type 0 where
  pub order_id : ℕ
  pub exec_quantity : ℕ

pub record ReplaceOrder : Type 0 where
  pub order_id : ℕ
  pub new_price : ℕ
  pub new_quantity : ℕ

pub record TradeMessage : Type 0 where
  pub symbol : ℕ
  pub price : ℕ
  pub quantity : ℕ
  pub buy_order_id : ℕ
  pub sell_order_id : ℕ

pub data ParsedMessage : Type 0 where
  add_order : AddOrder → ParsedMessage
  cancel_order : CancelOrder → ParsedMessage
  execute_order : ExecuteOrder → ParsedMessage
  replace_order : ReplaceOrder → ParsedMessage
  trade_message : TradeMessage → ParsedMessage

-- `TYPE` of each message
abbrev pub type_of : ParsedMessage → ℕ
type_of (add_order m) = b'A'
type_of (cancel_order m) = b'X'
type_of (execute_order m) = b'E'
type_of (replace_order m) = b'R'
type_of (trade_message m) = b'T'

-- `WIRE_SIZE` of each message
abbrev pub wire_size : ParsedMessage → ℕ
wire_size (add_order m) = 36
wire_size (cancel_order m) = 19
wire_size (execute_order m) = 23
wire_size (replace_order m) = 27
wire_size (trade_message m) = 43

-- Each field fits its C++ type.
abbrev pub Fits : ParsedMessage → Type 0
Fits (add_order m) =
    (m.order_id < 256 ^ 8)
    × (m.side < 256 ^ 1)
    × (m.symbol < 256 ^ 8)
    × (m.price < 256 ^ 4)
    × (m.quantity < 256 ^ 4)
Fits (cancel_order m) = m.order_id < 256 ^ 8
Fits (execute_order m) = (m.order_id < 256 ^ 8) × (m.exec_quantity < 256 ^ 4)
Fits (replace_order m) =
    (m.order_id < 256 ^ 8) × (m.new_price < 256 ^ 4) × (m.new_quantity < 256 ^ 4)
Fits (trade_message m) =
    (m.symbol < 256 ^ 8)
    × (m.price < 256 ^ 4)
    × (m.quantity < 256 ^ 4)
    × (m.buy_order_id < 256 ^ 8)
    × (m.sell_order_id < 256 ^ 8)
