-- ===== src/Tests/Wires.antt =====
-- The wire at concrete messages.
use real_time_market_data_fe.Base.{
  ℕ, ◌≡◌, ◌≤◌, arith, some, List, [], ◌∷◌, length, replicate, drop, ◌++◌, All, flatten, ◌+◌, map,
  not, ◌==◌, ◌&&◌, leb, if◌then◌else◌,
}
use real_time_market_data_fe.Protocol.Messages.{
  AddOrder, ParsedMessage, CancelOrder, wire_size, type_of,
}
use real_time_market_data_fe.Protocol.Messages
use real_time_market_data_fe.Protocol.Encoder.{encode, parse, decode_header}
use real_time_market_data_fe.Protocol.Encoder.RoundTrip.{
  message_bytes, header_of, parse-encode, length-message_bytes,
}
use real_time_market_data_fe.Protocol.Validator.{validate_sound, validate-message_bytes}
use real_time_market_data_fe.Protocol.Batcher.{
  Batcher, new_batcher, append, add, flush, batch_header_bytes,
}
use real_time_market_data_fe.Protocol.Batcher.Batches.{
  Holds, header_now, new_batcher-Holds, append-Holds, flush_lem, add_lem,
}
use real_time_market_data_fe.Protocol.FrameParser.{parse_raw, walk}
use real_time_market_data_fe.Protocol.FrameParser.Frames.{
  IsInside, Stops, leftover, view_bytes, views_of, parse_raw_lem, parse_raw-frames, walk_fuel,
}
use real_time_market_data_fe.Protocol.Sequence.{new_tracker, check, check_all}
use real_time_market_data_fe.Protocol.Sequence.Accounting.{
  Tracks, accepts, turned_away, check_all_lem,
}
use real_time_market_data_fe.Handler.ParserStage.{parse_packet}
use real_time_market_data_fe.Handler.ParserStage.Delivery.{
  Stamped, AllFit, encoded, encoded-IsFrame, events_of, delivery, AllFit,
}

abbrev add_message : ParsedMessage
add_message =
    Messages.ParsedMessage.add_order
      (record { order_id = 5; side = 1; symbol = 7; price = 100; quantity = 10 })

abbrev cancel_message : ParsedMessage
cancel_message = Messages.ParsedMessage.cancel_order (record { order_id = 5 })

abbrev blank : List ℕ
blank = replicate 40 0

parse-encode_example :
    let (n, written) = encode add_message 3 blank in
    (n ≡ 36)
    × (parse written ≡ add_message)
    × (decode_header written ≡ header_of add_message 3)
    × (drop n written ≡ drop n blank)
    × (length written ≡ length blank)
parse-encode_example =
    parse-encode add_message 3 blank
      (omega arith, omega arith, omega arith, omega arith, omega arith) (omega arith) (omega arith)

validate_sound_example :
    let buffer = message_bytes add_message 3 ++ [] in
    let msg = parse buffer in
    let header = decode_header buffer in
    (header.message_type ≡ type_of msg)
    × (header.message_length ≡ wire_size msg)
    × (wire_size msg ≤ 36)
validate_sound_example =
    validate_sound (message_bytes add_message 3 ++ []) 36
      (validate-message_bytes add_message 3 [] (omega arith))

abbrev two_frames : List ℕ
two_frames = 19 ∷ 0 ∷ b'X' ∷ replicate 16 0 ++ (19 ∷ 0 ∷ b'X' ∷ replicate 16 1 ++ (30 ∷ 2 ∷ []))

parse_raw_lem_example :
    let views = parse_raw two_frames in
    let rest = leftover (length two_frames) two_frames in
    All IsInside views × (flatten (map view_bytes views) ++ rest ≡ two_frames) × Stops rest
parse_raw_lem_example = parse_raw_lem two_frames

walk_fuel_example : walk 60 two_frames ≡ walk 100 two_frames
walk_fuel_example = walk_fuel 60 100 two_frames (omega arith) (omega arith)

abbrev stamped : List Stamped
stamped = (add_message, 3) ∷ (cancel_message, 4) ∷ []

stamped-AllFit : AllFit stamped
stamped-AllFit = (
  (omega arith, omega arith, omega arith, omega arith, omega arith),
  omega arith,
  (omega arith, omega arith, tt),
)

parse_raw-frames_example :
    parse_raw (flatten (encoded stamped) ++ (1 ∷ 2 ∷ [])) ≡ views_of (encoded stamped) (1 ∷ 2 ∷ [])
parse_raw-frames_example =
    parse_raw-frames (encoded stamped) (1 ∷ 2 ∷ []) (encoded-IsFrame stamped stamped-AllFit)
      (omega arith)

abbrev batch_one : Batcher
batch_one = append (new_batcher 1400) (message_bytes add_message 3)

abbrev batch_two : Batcher
batch_two = append batch_one (message_bytes cancel_message 4)

room : (n : ℕ) (m : List ℕ) (k : ℕ) → length m ≡ k → n + k ≤ 1400 → n + length m ≤ 1400
room n m k e h = omega (arith, e)

batch_one-Holds : Holds batch_one (message_bytes add_message 3 ∷ [])
unfolding append new_batcher
batch_one-Holds =
    append-Holds (new_batcher 1400) [] (new_batcher-Holds 1400 (omega arith) (omega arith))
      (message_bytes add_message 3) (omega (arith, length-message_bytes add_message 3))
      (omega (arith, length-message_bytes add_message 3))

batch_two-Holds : Holds batch_two (encoded stamped)
unfolding append new_batcher
batch_two-Holds =
    append-Holds batch_one (message_bytes add_message 3 ∷ []) batch_one-Holds
      (message_bytes cancel_message 4) (omega (arith, length-message_bytes cancel_message 4))
      (omega (arith, length-message_bytes add_message 3, length-message_bytes cancel_message 4))

delivery_example :
    (datagram : List ℕ) × ((flush batch_two).1 ≡ some datagram)
    × (parse_packet (record { bytes = datagram; receive_timestamp = 77 })
        ≡ (events_of 77 stamped, 0))
unfolding append new_batcher
delivery_example =
    delivery batch_two stamped 77 batch_two-Holds stamped-AllFit (omega arith) (omega arith)

flush_lem_example :
    let (b', sent) = flush batch_two in
    (sent
      ≡ some (
          batch_header_bytes (header_now batch_two (encoded stamped)) ++ flatten (encoded stamped)))
    × Holds b' []
    × (b'.seq_num ≡ 1)
unfolding append new_batcher
flush_lem_example = flush_lem batch_two (encoded stamped) batch_two-Holds (omega arith)

-- As much as one datagram takes.
abbrev full_load : List ℕ
full_load = replicate 1388 1

add_lem_example :
    let fits = not (length full_load == 0) && leb (12 + length full_load) 1400 in
    let (b', taken) = add (new_batcher 1400) full_load in
    (taken ≡ fits)
    × Holds b' (if fits then full_load ∷ [] else [])
    × (b'.seq_num ≡ 0)
    × (b'.max_size ≡ 1400)
    × (b' ≡ (if fits then b' else new_batcher 1400))
unfolding new_batcher
add_lem_example =
    add_lem (new_batcher 1400) [] full_load (new_batcher-Holds 1400 (omega arith) (omega arith))

-- 12 and 13 are missed; 12 comes too late.
abbrev numbers : List ℕ
numbers = 11 ∷ 14 ∷ 12 ∷ 15 ∷ []

check_all_lem_example :
    let t = (check new_tracker 10).0 in
    Tracks 10 (accepts t numbers (10 ∷ [])) (turned_away t numbers 0) (check_all t numbers)
check_all_lem_example =
    check_all_lem 10 numbers (omega arith)
      (omega arith, (omega arith, (omega arith, (omega arith, tt))))
