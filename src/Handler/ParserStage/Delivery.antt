-- ===== src/Handler/ParserStage/Delivery.antt =====
-- From the sender's batcher to the receiver's parser: every message arrives.
use real_time_market_data_fe.Base.{
  ℕ, suc, ◌^◌, ◌≤◌, ◌<◌, ◌≡◌, refl, sym, ap, ◌∙◌, flatten, append-nil, List, [], ◌∷◌, ◌++◌, some,
  length, All, arith, length-append,
}
use real_time_market_data_fe.Protocol.Messages.{
  MessageHeader, ParsedMessage, add_order, cancel_order, execute_order, replace_order,
  trade_message, Fits, wire_size,
}
use real_time_market_data_fe.Protocol.Encoder
use real_time_market_data_fe.Protocol.Encoder.RoundTrip.{
  message_bytes, length-message_bytes, parse-message_bytes, decode_header-header_bytes,
}
use real_time_market_data_fe.Protocol.Validator.{ok, validate-message_bytes}
use real_time_market_data_fe.Protocol.Batcher.{BatchHeader, Batcher, flush, batch_header_bytes}
use real_time_market_data_fe.Protocol.Batcher.Header.{
  HeaderFits, length-batch_header_bytes, drop-batch_header_bytes, decode_batch_header_lem,
}
use real_time_market_data_fe.Protocol.Batcher.Batches.{Holds, header_now, flush_lem}
use real_time_market_data_fe.Protocol.FrameParser.{parse_raw, parse_datagram}
use real_time_market_data_fe.Protocol.FrameParser.Frames.{IsFrame, views_of, parse_raw-frames}
use real_time_market_data_fe.Core.PipelineTypes.{ParsedEvent}
use real_time_market_data_fe.Handler.ParserStage.{parse_views, parse_packet}

-- A message and its timestamp, each within its C++ type.
abbrev pub Stamped : Type 0
Stamped = ParsedMessage × ℕ

abbrev pub AllFit : List Stamped → Type 0
AllFit [] = Unit
AllFit ((m, ts) ∷ ms) = Fits m × (ts < 256 ^ 8) × AllFit ms

abbrev pub encoded : List Stamped → List (List ℕ)
encoded [] = []
encoded ((m, ts) ∷ ms) = message_bytes m ts ∷ encoded ms

-- The events of messages that were received at `now`.
abbrev pub events_of : ℕ → List Stamped → List ParsedEvent
events_of now [] = []
events_of now ((m, ts) ∷ ms) = record { message = m; receive_timestamp = now } ∷ events_of now ms

header_fits : (m : ParsedMessage) → 11 ≤ wire_size m
header_fits (add_order m) = omega arith
header_fits (cancel_order m) = omega arith
header_fits (execute_order m) = omega arith
header_fits (replace_order m) = omega arith
header_fits (trade_message m) = omega arith

pub encoded-IsFrame : (ms : List Stamped) → AllFit ms → All IsFrame (encoded ms)
encoded-IsFrame [] h = tt
encoded-IsFrame ((m, ts) ∷ ms) h = (
  (
    omega (arith, header_fits m, length-message_bytes m ts),
    ap (λ (k : MessageHeader). k.message_length)
          (decode_header-header_bytes m ts (Encoder.payload_bytes m) h.1)
        ∙ sym (length-message_bytes m ts),
  ),
  encoded-IsFrame ms h.2,
)

length-encoded : (ms : List Stamped) → length (encoded ms) ≡ length ms
length-encoded [] = refl
length-encoded ((m, ts) ∷ ms) = ap suc (length-encoded ms)

parse_views-encoded :
    (now : ℕ) (ms : List Stamped)
    → AllFit ms
    → parse_views now (views_of (encoded ms) []) ≡ (events_of now ms, 0)
unfolding parse_views
parse_views-encoded now [] h = refl
parse_views-encoded now ((m, ts) ∷ ms) h =
    let rest = flatten (encoded ms) ++ [] in
    rw (
      length-message_bytes m ts,
      validate-message_bytes m ts rest h.1,
      parse-message_bytes m ts rest h.0 h.1,
      parse_views-encoded now ms h.2,
    )

parse_datagram_lem :
    (h : BatchHeader) (ms : List Stamped)
    → HeaderFits h
    → AllFit ms
    → parse_datagram (batch_header_bytes h ++ flatten (encoded ms))
      ≡ record { batch_header = h; messages = views_of (encoded ms) []; error = ok }
unfolding parse_datagram
parse_datagram_lem h ms f g =
    let body = flatten (encoded ms) in
    let frames : parse_raw body ≡ views_of (encoded ms) [] =
      ap parse_raw (sym (append-nil body))
      ∙ parse_raw-frames (encoded ms) [] (encoded-IsFrame ms g) (omega arith) in
    ground (
      arith,
      length-append (batch_header_bytes h) body,
      length-batch_header_bytes h,
      decode_batch_header_lem h body f,
      drop-batch_header_bytes h body,
      frames,
    )

-- A batch of encoded messages that the sender flushes is a datagram that the parser stage turns into
-- exactly these messages, in order and with no error; provided that the batch is not empty, that
-- every field fits its type, and that the batcher's sequence number does.
pub delivery :
    (b : Batcher) (ms : List Stamped) (now : ℕ)
    → Holds b (encoded ms)
    → AllFit ms
    → b.seq_num < 256 ^ 8
    → 0 < length ms
    → (datagram : List ℕ) × ((flush b).1 ≡ some datagram)
      × (parse_packet (record { bytes = datagram; receive_timestamp = now })
          ≡ (events_of now ms, 0))
unfolding parse_packet
delivery b ms now v f seq some_message =
    let h = header_now b (encoded ms) in
    (
      batch_header_bytes h ++ flatten (encoded ms),
      (flush_lem b (encoded ms) v (omega (arith, length-encoded ms))).0,
      rw
          (parse_datagram_lem h ms
            (
              seq,
              omega (arith, v.position, v.within, v.limit, v.few),
              omega (arith, v.position, v.within, v.limit),
            )
            f)
          (parse_views-encoded now ms f),
    )
