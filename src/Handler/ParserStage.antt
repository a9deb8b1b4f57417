-- ===== src/Handler/ParserStage.antt =====
-- src/handler/parser_stage.cpp: what one round of the loop makes of a packet, before the events are
-- pushed to the second queue.
pub mod Delivery
use real_time_market_data_fe.Base.{ℕ, ◌+◌, Bool, true, false, if◌then◌else◌, List, [], ◌∷◌}
use real_time_market_data_fe.Core.PipelineTypes.{RawPacket, ParsedEvent}
use real_time_market_data_fe.Protocol.Encoder
use real_time_market_data_fe.Protocol.Validator.{ErrorCode, ok, validate}
use real_time_market_data_fe.Protocol.FrameParser.{MessageView, FrameParseResult, parse_datagram}

-- `ValidationResult::ok` and `FrameParseResult::ok`
abbrev pub is_ok : ErrorCode → Bool
is_ok ok = true
is_ok _ = false

-- The loop over the views: the events in order, and the number of `parse_errors`.
unfoldable pub parse_views : ℕ → List MessageView → List ParsedEvent × ℕ
parse_views ts [] = ([], 0)
parse_views ts (v ∷ vs) =
    let (events, errors) = parse_views ts vs in
    if is_ok (validate v.bytes v.len)
    then (record { message = Encoder.parse v.bytes; receive_timestamp = ts } ∷ events, errors)
    else (events, errors + 1)

unfoldable pub parse_packet : RawPacket → List ParsedEvent × ℕ
parse_packet pkt =
    let result = parse_datagram pkt.bytes in
    if is_ok result.error then parse_views pkt.receive_timestamp result.messages else ([], 1)
