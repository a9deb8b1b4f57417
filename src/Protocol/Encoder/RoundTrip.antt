-- ===== src/Protocol/Encoder/RoundTrip.antt =====
-- What the encoder writes, the decoder reads back.
use real_time_market_data_fe.Base.{
  ℕ, ◌^◌, ◌≤◌, ◌<◌, ◌≡◌, refl, ap, ◌∙◌, List, ◌++◌, append_assoc, arith, length, drop,
  length-append, subst, length-drop, drop-append_length,
}
use real_time_market_data_fe.Protocol.Wire.{put_le, drop-put_le, get_le-put_le}
use real_time_market_data_fe.Protocol.Messages.{
  MessageHeader, header_size, AddOrder, CancelOrder, ExecuteOrder, ReplaceOrder, TradeMessage,
  ParsedMessage, add_order, cancel_order, execute_order, replace_order, trade_message, type_of,
  wire_size, Fits,
}
use real_time_market_data_fe.Protocol.Encoder.{
  header_bytes, payload_bytes, encode, decode_header, parse, decode_add_order, decode_cancel_order,
  decode_execute_order, decode_replace_order, decode_trade_message,
}

abbrev pub header_of : ParsedMessage → ℕ → MessageHeader
header_of msg ts = record {
  message_length = wire_size msg;
  message_type = type_of msg;
  timestamp = ts;
}

-- The bytes of a message on the wire.
abbrev pub message_bytes : ParsedMessage → ℕ → List ℕ
message_bytes msg ts = header_bytes (header_of msg ts) ++ payload_bytes msg

MessageHeader_ext :
    (m n : MessageHeader)
    → m.message_length ≡ n.message_length
    → m.message_type ≡ n.message_type
    → m.timestamp ≡ n.timestamp
    → m ≡ n
MessageHeader_ext m n a b c =
    λ i. record { message_length = a i; message_type = b i; timestamp = c i }

AddOrder_ext :
    (m n : AddOrder)
    → m.order_id ≡ n.order_id
    → m.side ≡ n.side
    → m.symbol ≡ n.symbol
    → m.price ≡ n.price
    → m.quantity ≡ n.quantity
    → m ≡ n
AddOrder_ext m n a b c d e =
    λ i. record { order_id = a i; side = b i; symbol = c i; price = d i; quantity = e i }

ExecuteOrder_ext :
    (m n : ExecuteOrder) → m.order_id ≡ n.order_id → m.exec_quantity ≡ n.exec_quantity → m ≡ n
ExecuteOrder_ext m n a b = λ i. record { order_id = a i; exec_quantity = b i }

ReplaceOrder_ext :
    (m n : ReplaceOrder)
    → m.order_id ≡ n.order_id
    → m.new_price ≡ n.new_price
    → m.new_quantity ≡ n.new_quantity
    → m ≡ n
ReplaceOrder_ext m n a b c = λ i. record { order_id = a i; new_price = b i; new_quantity = c i }

TradeMessage_ext :
    (m n : TradeMessage)
    → m.symbol ≡ n.symbol
    → m.price ≡ n.price
    → m.quantity ≡ n.quantity
    → m.buy_order_id ≡ n.buy_order_id
    → m.sell_order_id ≡ n.sell_order_id
    → m ≡ n
TradeMessage_ext m n a b c d e = λ i. record {
  symbol = a i;
  price = b i;
  quantity = c i;
  buy_order_id = d i;
  sell_order_id = e i;
}

wire_size_fits : (msg : ParsedMessage) → wire_size msg < 256 ^ 2
wire_size_fits (add_order m) = omega arith
wire_size_fits (cancel_order m) = omega arith
wire_size_fits (execute_order m) = omega arith
wire_size_fits (replace_order m) = omega arith
wire_size_fits (trade_message m) = omega arith

type_of_fits : (msg : ParsedMessage) → type_of msg < 256 ^ 1
type_of_fits (add_order m) = omega arith
type_of_fits (cancel_order m) = omega arith
type_of_fits (execute_order m) = omega arith
type_of_fits (replace_order m) = omega arith
type_of_fits (trade_message m) = omega arith

pub decode_header-header_bytes :
    (msg : ParsedMessage) (ts : ℕ) (rest : List ℕ)
    → ts < 256 ^ 8
    → decode_header (header_bytes (header_of msg ts) ++ rest) ≡ header_of msg ts
unfolding decode_header header_bytes
decode_header-header_bytes msg ts rest h =
    simp (append_assoc, drop-put_le)
      (MessageHeader_ext _ _ (get_le-put_le 2 (wire_size msg) _ (wire_size_fits msg))
        (get_le-put_le 1 (type_of msg) _ (type_of_fits msg)) (get_le-put_le 8 ts _ h))

pub drop-header_bytes :
    (h : MessageHeader) (rest : List ℕ) → drop header_size (header_bytes h ++ rest) ≡ rest
unfolding header_bytes put_le
drop-header_bytes h rest = refl

pub length-message_bytes :
    (msg : ParsedMessage) (ts : ℕ) → length (message_bytes msg ts) ≡ wire_size msg
unfolding header_bytes payload_bytes put_le
length-message_bytes (add_order m) ts = refl
length-message_bytes (cancel_order m) ts = refl
length-message_bytes (execute_order m) ts = refl
length-message_bytes (replace_order m) ts = refl
length-message_bytes (trade_message m) ts = refl

decode_add_order-payload :
    (m : AddOrder) (rest : List ℕ)
    → Fits (add_order m)
    → decode_add_order (payload_bytes (add_order m) ++ rest) ≡ m
unfolding decode_add_order payload_bytes
decode_add_order-payload m rest h =
    simp (append_assoc, drop-put_le)
      (AddOrder_ext _ _ (get_le-put_le 8 m.order_id _ h.0) (get_le-put_le 1 m.side _ h.1)
        (get_le-put_le 8 m.symbol _ h.2) (get_le-put_le 4 m.price _ h.3)
        (get_le-put_le 4 m.quantity _ h.4))

decode_cancel_order-payload :
    (m : CancelOrder) (rest : List ℕ)
    → Fits (cancel_order m)
    → decode_cancel_order (payload_bytes (cancel_order m) ++ rest) ≡ m
unfolding decode_cancel_order payload_bytes
decode_cancel_order-payload m rest h =
    λ i. record { order_id = get_le-put_le 8 m.order_id rest h i }

decode_execute_order-payload :
    (m : ExecuteOrder) (rest : List ℕ)
    → Fits (execute_order m)
    → decode_execute_order (payload_bytes (execute_order m) ++ rest) ≡ m
unfolding decode_execute_order payload_bytes
decode_execute_order-payload m rest h =
    simp (append_assoc, drop-put_le)
      (ExecuteOrder_ext _ _ (get_le-put_le 8 m.order_id _ h.0)
        (get_le-put_le 4 m.exec_quantity _ h.1))

decode_replace_order-payload :
    (m : ReplaceOrder) (rest : List ℕ)
    → Fits (replace_order m)
    → decode_replace_order (payload_bytes (replace_order m) ++ rest) ≡ m
unfolding decode_replace_order payload_bytes
decode_replace_order-payload m rest h =
    simp (append_assoc, drop-put_le)
      (ReplaceOrder_ext _ _ (get_le-put_le 8 m.order_id _ h.0) (get_le-put_le 4 m.new_price _ h.1)
        (get_le-put_le 4 m.new_quantity _ h.2))

decode_trade_message-payload :
    (m : TradeMessage) (rest : List ℕ)
    → Fits (trade_message m)
    → decode_trade_message (payload_bytes (trade_message m) ++ rest) ≡ m
unfolding decode_trade_message payload_bytes
decode_trade_message-payload m rest h =
    simp (append_assoc, drop-put_le)
      (TradeMessage_ext _ _ (get_le-put_le 8 m.symbol _ h.0) (get_le-put_le 4 m.price _ h.1)
        (get_le-put_le 4 m.quantity _ h.2) (get_le-put_le 8 m.buy_order_id _ h.3)
        (get_le-put_le 8 m.sell_order_id _ h.4))

-- Parsing a message's bytes, whatever follows them, gives the message.
pub parse-message_bytes :
    (msg : ParsedMessage) (ts : ℕ) (rest : List ℕ)
    → Fits msg
    → ts < 256 ^ 8
    → parse (message_bytes msg ts ++ rest) ≡ msg
unfolding parse
parse-message_bytes (add_order m) ts rest f h =
    rw (append_assoc, decode_header-header_bytes (add_order m) ts _ h, drop-header_bytes)
      (ap add_order (decode_add_order-payload m rest f))
parse-message_bytes (cancel_order m) ts rest f h =
    rw (append_assoc, decode_header-header_bytes (cancel_order m) ts _ h, drop-header_bytes)
      (ap cancel_order (decode_cancel_order-payload m rest f))
parse-message_bytes (execute_order m) ts rest f h =
    rw (append_assoc, decode_header-header_bytes (execute_order m) ts _ h, drop-header_bytes)
      (ap execute_order (decode_execute_order-payload m rest f))
parse-message_bytes (replace_order m) ts rest f h =
    rw (append_assoc, decode_header-header_bytes (replace_order m) ts _ h, drop-header_bytes)
      (ap replace_order (decode_replace_order-payload m rest f))
parse-message_bytes (trade_message m) ts rest f h =
    rw (append_assoc, decode_header-header_bytes (trade_message m) ts _ h, drop-header_bytes)
      (ap trade_message (decode_trade_message-payload m rest f))

drop-message_bytes :
    (msg : ParsedMessage) (ts : ℕ) (rest : List ℕ)
    → drop (wire_size msg) (message_bytes msg ts ++ rest) ≡ rest
drop-message_bytes msg ts rest =
    subst (λ n. drop n (message_bytes msg ts ++ rest) ≡ rest) (length-message_bytes msg ts)
      (drop-append_length (message_bytes msg ts) rest)

pub encode_fits :
    (msg : ParsedMessage) (ts : ℕ) (buffer : List ℕ)
    → wire_size msg ≤ length buffer
    → encode msg ts buffer ≡ (wire_size msg, message_bytes msg ts ++ drop (wire_size msg) buffer)
unfolding encode
encode_fits msg ts buffer le = ground (
  arith,
  append_assoc (header_bytes (header_of msg ts)) (payload_bytes msg) (drop (wire_size msg) buffer),
)

-- `encode` into a buffer that holds the message returns its wire size, leaves the bytes behind it
-- and the size of the buffer as they were, and parsing the buffer gives the message and its header
-- back; for a message whose fields fit their types.
pub parse-encode :
    (msg : ParsedMessage) (ts : ℕ) (buffer : List ℕ)
    → Fits msg
    → ts < 256 ^ 8
    → wire_size msg ≤ length buffer
    → let (n, written) = encode msg ts buffer in
      (n ≡ wire_size msg)
      × (parse written ≡ msg)
      × (decode_header written ≡ header_of msg ts)
      × (drop n written ≡ drop n buffer)
      × (length written ≡ length buffer)
parse-encode msg ts buffer f h le =
    let kept = drop (wire_size msg) buffer in
    rw (encode_fits msg ts buffer le) (
      refl,
      parse-message_bytes msg ts kept f h,
      ap decode_header (append_assoc (header_bytes (header_of msg ts)) (payload_bytes msg) kept)
          ∙ decode_header-header_bytes msg ts (payload_bytes msg ++ kept) h,
      drop-message_bytes msg ts kept,
      omega (
        arith,
        length-append (message_bytes msg ts) kept,
        length-message_bytes msg ts,
        length-drop (wire_size msg) buffer,
      ),
    )
