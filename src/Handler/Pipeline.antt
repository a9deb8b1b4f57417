-- ===== src/Handler/Pipeline.antt =====
-- The stages around the queues: src/handler/network_stage.cpp, parser_stage.cpp and book_stage.cpp,
-- on the state of include/qf/core/pipeline.hpp. One round of a stage's loop is a function; the stages
-- take turns, though the program runs them on threads that share `stats_`.
pub mod Rounds
use real_time_market_data_fe.Base.{
  ℕ, zero, suc, ◌+◌, ◌-◌, ◌*◌, ◌/◌, ◌%◌, ◌^◌, ◌<◌, ◌≤◌, ◌≡◌, ◌≢◌, ◌∙◌, refl, sym, ap, subst, ◌==◌,
  ltb, leb, ◌&&◌, ◌||◌, if◌then◌else◌, dec_lt, get_elem?, set, replicate, get_elem?-set_self,
  get_elem?-set_ne, length-set, Option-cases, Bool, true, false, Bool-cases, ◌⊎◌, inl, inr, Option,
  none, some, List, [], ◌∷◌, ◌++◌, append-nil, append_assoc, arith, All, length, length-append,
  drop-append_length, drop-append_add, take-append_length, drop, take, min, max, flatten, map,
}
use real_time_market_data_fe.Base.Words.{add64}
use real_time_market_data_fe.Core.PipelineTypes.{RawPacket, ParsedEvent, BookUpdate}
use real_time_market_data_fe.Core.SpscQueue.{SpscQueue, try_push, try_pop}
use real_time_market_data_fe.Core.Manager.{BookManager, process}
use real_time_market_data_fe.Protocol.Encoder
use real_time_market_data_fe.Protocol.Validator.{validate}
use real_time_market_data_fe.Protocol.FrameParser.{MessageView, parse_datagram}
use real_time_market_data_fe.Handler.ParserStage.{is_ok, parse_views}

pub record PipelineStats : Type 0 where
  pub packets_received : ℕ
  pub messages_parsed : ℕ
  pub book_updates : ℕ
  pub parse_errors : ℕ
  pub queue_drops : ℕ

pub record Pipeline : Type 0 where
  pub q1 : SpscQueue RawPacket
  pub q2 : SpscQueue ParsedEvent
  pub q3 : SpscQueue BookUpdate
  pub book_manager : BookManager
  pub stats : PipelineStats

abbrev pub q1_capacity : ℕ
q1_capacity = 65536

abbrev pub q2_capacity : ℕ
q2_capacity = 65536

abbrev pub q3_capacity : ℕ
q3_capacity = 16384

abbrev pub packet_size : ℕ
packet_size = 1500

abbrev pub count_drop : PipelineStats → PipelineStats
count_drop s = record s { queue_drops = add64 s.queue_drops 1 }

abbrev pub count_errors : ℕ → PipelineStats → PipelineStats
count_errors n s = record s { parse_errors = add64 s.parse_errors n }

-- The receiver's callback: a longer datagram is cut.
unfoldable pub on_datagram : List ℕ → ℕ → Pipeline → Pipeline
on_datagram bytes receive_ts p =
    let (q, pushed) =
      try_push q1_capacity p.q1
        (record { bytes = take packet_size bytes; receive_timestamp = receive_ts }) in
    record p {
      q1 = q;
      stats =
          if pushed
          then record (p.stats) { packets_received = add64 p.stats.packets_received 1 }
          else count_drop p.stats;
    }

unfoldable pub push_event : ParsedEvent → Pipeline → Pipeline
push_event event p =
    let (q, pushed) = try_push q2_capacity p.q2 event in
    record p {
      q2 = q;
      stats =
          if pushed
          then record (p.stats) { messages_parsed = add64 p.stats.messages_parsed 1 }
          else count_drop p.stats;
    }

abbrev pub with_errors : ℕ → Pipeline → Pipeline
with_errors n p = record p { stats = count_errors n p.stats }

-- The parser stage's loop over the messages of a datagram.
unfoldable pub push_views : ℕ → List MessageView → Pipeline → Pipeline
push_views ts [] p = p
push_views ts (v ∷ vs) p = push_views ts vs (
    if is_ok (validate v.bytes v.len)
    then push_event (record { message = Encoder.parse v.bytes; receive_timestamp = ts }) p
    else with_errors 1 p)

unfoldable pub parse_packet : RawPacket → Pipeline → Pipeline
parse_packet pkt p =
    let result = parse_datagram pkt.bytes in
    if is_ok result.error
    then push_views pkt.receive_timestamp result.messages p
    else with_errors 1 p

unfoldable pub parser_round : Pipeline → Pipeline
parser_round p =
    let (q, popped) = try_pop q1_capacity p.q1 in
    elim popped [ none ↦ p | some pkt ↦ parse_packet pkt (record p { q1 = q }) ]

-- The clock reading of `process` is an argument.
unfoldable pub process_event : ParsedEvent → ℕ → Pipeline → Pipeline
process_event event now p =
    let (manager, update) = process p.book_manager event now in
    let (q, pushed) = try_push q3_capacity p.q3 update in
    record p {
      book_manager = manager;
      q3 = q;
      stats =
          if pushed
          then record (p.stats) { book_updates = add64 p.stats.book_updates 1 }
          else count_drop p.stats;
    }

unfoldable pub book_round : ℕ → Pipeline → Pipeline
book_round now p =
    let (q, popped) = try_pop q2_capacity p.q2 in
    elim popped [ none ↦ p | some event ↦ process_event event now (record p { q2 = q }) ]

abbrev pub push_events : List ParsedEvent → Pipeline → Pipeline
push_events [] p = p
push_events (e ∷ es) p = push_events es (push_event e p)
