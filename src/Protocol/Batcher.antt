-- ===== src/Protocol/Batcher.antt =====
-- include/qf/protocol/batcher.hpp and src/protocol/batcher.cpp. A null pointer is a message of no
-- bytes: both are refused alike.
pub mod Header
pub mod Batches
use real_time_market_data_fe.Base.{
  ℕ, ◌+◌, ◌%◌, ◌==◌, ltb, if◌then◌else◌, Bool, true, false, Option, none, some, List, ◌++◌, length,
  take, drop, replicate,
}
use real_time_market_data_fe.Base.Words.{add16, add64, u16_mod}
use real_time_market_data_fe.Protocol.Wire.{put_le, get_le}

pub record BatchHeader : Type 0 where
  pub seq_num : ℕ
  pub msg_count : ℕ
  pub total_len : ℕ

-- `BATCH_HEADER_SIZE` and `MAX_DATAGRAM`
abbrev pub batch_header_size : ℕ
batch_header_size = 12

abbrev pub max_datagram : ℕ
max_datagram = 1400

pub record Batcher : Type 0 where
  pub buffer : List ℕ
  pub max_size : ℕ
  pub write_pos : ℕ
  pub msg_count : ℕ
  pub seq_num : ℕ

unfoldable pub new_batcher : ℕ → Batcher
new_batcher max_datagram_size = record {
  buffer = replicate max_datagram 0;
  max_size = max_datagram_size;
  write_pos = batch_header_size;
  msg_count = 0;
  seq_num = 0;
}

-- `memcpy(buffer_ + at, bytes, n)`
abbrev pub overwrite : ℕ → List ℕ → List ℕ → List ℕ
overwrite at bytes buffer = take at buffer ++ (bytes ++ drop (at + length bytes) buffer)

unfoldable pub append : Batcher → List ℕ → Batcher
append b msg = record b {
  buffer = overwrite b.write_pos msg b.buffer;
  write_pos = b.write_pos + length msg;
  msg_count = add16 b.msg_count 1;
}

-- `Batcher::add`
unfoldable pub add : Batcher → List ℕ → Batcher × Bool
add b msg =
    if length msg == 0
    then (b, false)
    else if ltb b.max_size (b.write_pos + length msg)
    then (b, false)
    else if ltb b.max_size (batch_header_size + length msg)
    then (b, false)
    else (append b msg, true)

pub batch_header_bytes : BatchHeader → List ℕ
batch_header_bytes h = put_le 8 h.seq_num ++ (put_le 2 h.msg_count ++ put_le 2 h.total_len)

pub decode_batch_header : List ℕ → BatchHeader
decode_batch_header bs =
    let p1 = drop 8 bs in
    let p2 = drop 2 p1 in
    record { seq_num = get_le 8 bs; msg_count = get_le 2 p1; total_len = get_le 2 p2 }

-- `Batcher::write_header`
pub write_header : Batcher → Batcher
write_header b =
    let header : BatchHeader = record {
      seq_num = b.seq_num;
      msg_count = b.msg_count;
      total_len = b.write_pos % u16_mod;
    } in
    record b {
      buffer = overwrite 0 (batch_header_bytes header) b.buffer;
      seq_num = add64 b.seq_num 1;
    }

-- `Batcher::flush`: the datagram that the result or the callback shows, none for an empty batch.
unfoldable pub flush : Batcher → Batcher × Option (List ℕ)
flush b =
    let b' = write_header b in
    if b.msg_count == 0 then (b, none) else (
      record b' { write_pos = batch_header_size; msg_count = 0 },
      some (take b'.write_pos b'.buffer),
    )

-- `Batcher::add_and_flush`, with the datagram that goes to the callback, if any.
unfoldable pub add_and_flush : Batcher → List ℕ → Batcher × Bool × Option (List ℕ)
add_and_flush b msg =
    let (flushed, sent) = flush b in
    if length msg == 0
    then (b, false, none)
    else if ltb b.max_size (batch_header_size + length msg)
    then (b, false, none)
    else if ltb b.max_size (b.write_pos + length msg)
    then (append flushed msg, true, sent)
    else (append b msg, true, none)
