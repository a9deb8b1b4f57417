-- ===== src/Protocol/Validator.antt =====
-- src/protocol/validator.cpp, with include/qf/common/error_codes.hpp. The texts that go with the
-- codes are left out.
use real_time_market_data_fe.Base.{
  ℕ, ◌^◌, ◌∙◌, ap, ◌≤◌, ◌<◌, ◌≡◌, ◌==◌, ltb, if◌then◌else◌, not, ◌&&◌, Bool, true, false, List,
  ◌++◌, arith, append_assoc,
}
use real_time_market_data_fe.Protocol.Messages.{
  MessageHeader, header_size, AddOrder, CancelOrder, ExecuteOrder, ReplaceOrder, TradeMessage,
  ParsedMessage, add_order, cancel_order, execute_order, replace_order, trade_message, type_of,
  wire_size,
}
use real_time_market_data_fe.Protocol.Encoder.{header_bytes, decode_header, parse, payload_bytes}
use real_time_market_data_fe.Protocol.Encoder.RoundTrip.{
  message_bytes, header_of, decode_header-header_bytes,
}

pub data ErrorCode : Type 0 where
  ok buffer_too_small unknown_message_type invalid_length invalid_price : ErrorCode
  invalid_quantity timestamp_out_of_order gap_detected duplicate_sequence : ErrorCode
  queue_full order_not_found book_not_found config_load_failed : ErrorCode
  network_error shutdown_requested : ErrorCode

unfoldable pub expected_wire_size : ℕ → ℕ
expected_wire_size type =
    if type == b'A'
    then 36
    else if type == b'X'
    then 19
    else if type == b'E'
    then 23
    else if type == b'R'
    then 27
    else if type == b'T'
    then 43
    else 0

unfoldable pub is_known_type : ℕ → Bool
unfolding expected_wire_size
is_known_type type = not (expected_wire_size type == 0)

-- `Validator::validate`
unfoldable pub validate : List ℕ → ℕ → ErrorCode
unfolding is_known_type
validate buffer len =
    let header = decode_header buffer in
    if ltb len header_size
    then buffer_too_small
    else if not (is_known_type header.message_type)
    then unknown_message_type
    else if not (header.message_length == expected_wire_size header.message_type)
    then invalid_length
    else if ltb len header.message_length
    then buffer_too_small
    else ok

unfoldable pub validate_length : MessageHeader → ErrorCode
unfolding is_known_type
validate_length header =
    if not (is_known_type header.message_type)
    then unknown_message_type
    else if not (header.message_length == expected_wire_size header.message_type)
    then invalid_length
    else ok

unfoldable pub validate_add_order : AddOrder → ErrorCode
validate_add_order m =
    if m.price == 0
    then invalid_price
    else if m.quantity == 0
    then invalid_quantity
    else if not (m.side == 1) && not (m.side == 2)
    then unknown_message_type
    else ok

unfoldable pub validate_cancel_order : CancelOrder → ErrorCode
validate_cancel_order m = if m.order_id == 0 then invalid_length else ok

unfoldable pub validate_execute_order : ExecuteOrder → ErrorCode
validate_execute_order m =
    if m.order_id == 0
    then invalid_length
    else if m.exec_quantity == 0
    then invalid_quantity
    else ok

unfoldable pub validate_replace_order : ReplaceOrder → ErrorCode
validate_replace_order m =
    if m.new_price == 0 then invalid_price else if m.new_quantity == 0 then invalid_quantity else ok

unfoldable pub validate_trade_message : TradeMessage → ErrorCode
validate_trade_message m =
    if m.price == 0 then invalid_price else if m.quantity == 0 then invalid_quantity else ok

-- `check_timestamp`: the new `last_timestamp_` and the answer.
unfoldable pub check_timestamp : ℕ → ℕ → ℕ × Bool
check_timestamp last timestamp = if ltb timestamp last then (last, false) else (timestamp, true)

-- A buffer that `validate` passes holds the whole message that `parse` makes of it, and its header
-- tells that message's type and size: `parse` does not take its default branch, and reads no byte
-- behind the `len` bytes that were validated.
pub validate_sound :
    (buffer : List ℕ) (len : ℕ)
    → validate buffer len ≡ ok
    → let msg = parse buffer in
      let header = decode_header buffer in
      (header.message_type ≡ type_of msg)
      × (header.message_length ≡ wire_size msg)
      × (wire_size msg ≤ len)
unfolding validate parse
validate_sound buffer len h = ground arith

pub header_of_message :
    (msg : ParsedMessage) (ts : ℕ) (rest : List ℕ)
    → ts < 256 ^ 8
    → decode_header (message_bytes msg ts ++ rest) ≡ header_of msg ts
header_of_message msg ts rest h =
    ap decode_header (append_assoc (header_bytes (header_of msg ts)) (payload_bytes msg) rest)
    ∙ decode_header-header_bytes msg ts (payload_bytes msg ++ rest) h

-- The bytes of a message pass, whatever follows them.
pub validate-message_bytes :
    (msg : ParsedMessage) (ts : ℕ) (rest : List ℕ)
    → ts < 256 ^ 8
    → validate (message_bytes msg ts ++ rest) (wire_size msg) ≡ ok
unfolding validate
validate-message_bytes (add_order m) ts rest h = rw (header_of_message (add_order m) ts rest h)
validate-message_bytes (cancel_order m) ts rest h =
    rw (header_of_message (cancel_order m) ts rest h)
validate-message_bytes (execute_order m) ts rest h =
    rw (header_of_message (execute_order m) ts rest h)
validate-message_bytes (replace_order m) ts rest h =
    rw (header_of_message (replace_order m) ts rest h)
validate-message_bytes (trade_message m) ts rest h =
    rw (header_of_message (trade_message m) ts rest h)
