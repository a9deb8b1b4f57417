-- ===== src/Protocol/FrameParser.antt =====
-- include/qf/protocol/frame_parser.hpp and src/protocol/frame_parser.cpp. A pointer into a datagram
-- is the rest of the datagram from there.
pub mod Frames
use real_time_market_data_fe.Base.{
  ℕ, zero, suc, ◌+◌, ◌-◌, ◌==◌, ltb, leb, if◌then◌else◌, true, false, ◌||◌, List, [], ◌∷◌, length,
  drop, take,
}
use real_time_market_data_fe.Protocol.Wire.{get_le}
use real_time_market_data_fe.Protocol.Messages.{MessageHeader, header_size}
use real_time_market_data_fe.Protocol.Encoder.{decode_header}
use real_time_market_data_fe.Protocol.Validator.{ErrorCode, ok, buffer_too_small}
use real_time_market_data_fe.Protocol.Batcher.{BatchHeader, batch_header_size, decode_batch_header}

pub record MessageView : Type 0 where
  pub bytes : List ℕ
  pub len : ℕ

pub record FrameParseResult : Type 0 where
  pub batch_header : BatchHeader
  pub messages : List MessageView
  pub error : ErrorCode

-- The loop of the callback-based `parse`, at the offset where `rest` begins: the views that the two
-- callbacks collect. Each round drops at least a header, so as much fuel as bytes is enough.
pub walk : ℕ → List ℕ → List MessageView
walk zero rest = []
walk (suc fuel) rest =
    let n = (decode_header rest).message_length in
    let more = record { bytes = rest; len = n } ∷ walk fuel (drop n rest) in
    if ltb (length rest) header_size
    then []
    else (if ltb n header_size then [] else if ltb (length rest) n then [] else more)

-- `parse_raw`
unfoldable pub parse_raw : List ℕ → List MessageView
parse_raw bs = walk (length bs) bs

-- `FrameParser::parse(datagram, len)`
unfoldable pub parse_datagram : List ℕ → FrameParseResult
unfolding parse_raw
parse_datagram datagram =
    let nothing : BatchHeader = record { seq_num = 0; msg_count = 0; total_len = 0 } in
    if length datagram == 0
    then record { batch_header = nothing; messages = []; error = ok }
    else (if ltb (length datagram) batch_header_size
        then record { batch_header = nothing; messages = []; error = buffer_too_small }
        else record {
          batch_header = decode_batch_header datagram;
          messages = parse_raw (drop batch_header_size datagram);
          error = ok;
        })
