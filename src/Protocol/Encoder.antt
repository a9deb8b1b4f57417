-- ===== src/Protocol/Encoder.antt =====
-- include/qf/protocol/encoder.hpp. A pointer into a buffer is the rest of the buffer from there.
pub mod RoundTrip
use real_time_market_data_fe.Base.{ℕ, ◌-◌, if◌then◌else◌, ◌==◌, ltb, length, drop, List, ◌++◌}
use real_time_market_data_fe.Protocol.Wire.{put_le, get_le}
use real_time_market_data_fe.Protocol.Messages.{
  MessageHeader, header_size, AddOrder, CancelOrder, ExecuteOrder, ReplaceOrder, TradeMessage,
  ParsedMessage, add_order, cancel_order, execute_order, replace_order, trade_message, type_of,
  wire_size,
}

pub header_bytes : MessageHeader → List ℕ
header_bytes h = put_le 2 h.message_length ++ (put_le 1 h.message_type ++ put_le 8 h.timestamp)

-- The packed struct behind the header.
pub payload_bytes : ParsedMessage → List ℕ
payload_bytes (add_order m) =
    put_le 8 m.order_id
    ++ (put_le 1 m.side ++ (put_le 8 m.symbol ++ (put_le 4 m.price ++ put_le 4 m.quantity)))
payload_bytes (cancel_order m) = put_le 8 m.order_id
payload_bytes (execute_order m) = put_le 8 m.order_id ++ put_le 4 m.exec_quantity
payload_bytes (replace_order m) =
    put_le 8 m.order_id ++ (put_le 4 m.new_price ++ put_le 4 m.new_quantity)
payload_bytes (trade_message m) =
    put_le 8 m.symbol
    ++ (put_le 4 m.price
        ++ (put_le 4 m.quantity ++ (put_le 8 m.buy_order_id ++ put_le 8 m.sell_order_id)))

-- `Encoder::encode`: the number of bytes written, and the buffer after it.
unfoldable pub encode : ParsedMessage → ℕ → List ℕ → ℕ × List ℕ
encode msg ts buffer =
    let header : MessageHeader = record {
      message_length = wire_size msg;
      message_type = type_of msg;
      timestamp = ts;
    } in
    if ltb (length buffer) (wire_size msg)
    then (0, buffer)
    else (wire_size msg, header_bytes header ++ (payload_bytes msg ++ drop (wire_size msg) buffer))

-- `Encoder::decode_header`
unfoldable pub decode_header : List ℕ → MessageHeader
decode_header bs =
    let after_length = drop 2 bs in
    let after_type = drop 1 after_length in
    record {
      message_length = get_le 2 bs;
      message_type = get_le 1 after_length;
      timestamp = get_le 8 after_type;
    }

-- `Encoder::decode_payload` at each message type: the struct's fields in order.
unfoldable pub decode_add_order : List ℕ → AddOrder
decode_add_order p0 =
    let p1 = drop 8 p0 in
    let p2 = drop 1 p1 in
    let p3 = drop 8 p2 in
    let p4 = drop 4 p3 in
    record {
      order_id = get_le 8 p0;
      side = get_le 1 p1;
      symbol = get_le 8 p2;
      price = get_le 4 p3;
      quantity = get_le 4 p4;
    }

unfoldable pub decode_cancel_order : List ℕ → CancelOrder
decode_cancel_order p0 = record { order_id = get_le 8 p0 }

unfoldable pub decode_execute_order : List ℕ → ExecuteOrder
decode_execute_order p0 =
    let p1 = drop 8 p0 in record { order_id = get_le 8 p0; exec_quantity = get_le 4 p1 }

unfoldable pub decode_replace_order : List ℕ → ReplaceOrder
decode_replace_order p0 =
    let p1 = drop 8 p0 in
    let p2 = drop 4 p1 in
    record { order_id = get_le 8 p0; new_price = get_le 4 p1; new_quantity = get_le 4 p2 }

unfoldable pub decode_trade_message : List ℕ → TradeMessage
decode_trade_message p0 =
    let p1 = drop 8 p0 in
    let p2 = drop 4 p1 in
    let p3 = drop 4 p2 in
    let p4 = drop 8 p3 in
    record {
      symbol = get_le 8 p0;
      price = get_le 4 p1;
      quantity = get_le 4 p2;
      buy_order_id = get_le 8 p3;
      sell_order_id = get_le 8 p4;
    }

-- `AddOrder{}`
abbrev pub zero_add_order : AddOrder
zero_add_order = record { order_id = 0; side = 0; symbol = 0; price = 0; quantity = 0 }

-- `Encoder::parse`
unfoldable pub parse : List ℕ → ParsedMessage
parse buffer =
    let type = (decode_header buffer).message_type in
    let payload = drop header_size buffer in
    if type == b'A'
    then add_order (decode_add_order payload)
    else if type == b'X'
    then cancel_order (decode_cancel_order payload)
    else if type == b'E'
    then execute_order (decode_execute_order payload)
    else if type == b'R'
    then replace_order (decode_replace_order payload)
    else if type == b'T'
    then trade_message (decode_trade_message payload)
    else add_order zero_add_order
