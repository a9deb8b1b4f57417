-- ===== src/Handler/Pipeline/Rounds.antt =====
-- The parser stage's single loop does what decoding all messages and then pushing them does.
use real_time_market_data_fe.Base.{
  ℕ, ◌+◌, ◌^◌, ◌<◌, ◌≡◌, ◌∙◌, refl, sym, ap, Bool-cases, inl, inr, List, [], ◌∷◌, arith,
}
use real_time_market_data_fe.Core.PipelineTypes.{ParsedEvent}
use real_time_market_data_fe.Core.SpscQueue.{try_push}
use real_time_market_data_fe.Protocol.Encoder
use real_time_market_data_fe.Protocol.Validator.{validate}
use real_time_market_data_fe.Protocol.FrameParser.{MessageView, parse_datagram}
use real_time_market_data_fe.Core.PipelineTypes.{RawPacket}
use real_time_market_data_fe.Handler.ParserStage
use real_time_market_data_fe.Handler.ParserStage.{is_ok, parse_views}
use real_time_market_data_fe.Handler.Pipeline.{
  Pipeline, q2_capacity, push_event, push_events, push_views, with_errors, parse_packet,
}

push_event-with_errors :
    (e : ParsedEvent) (n : ℕ) (p : Pipeline)
    → push_event e (with_errors n p) ≡ with_errors n (push_event e p)
unfolding push_event
push_event-with_errors e n p = elim (Bool-cases (try_push q2_capacity p.q2 e).1) [
  | inl y ↦ rw (y, push_event) refl
  | inr f ↦ rw (f, push_event) refl
]

push_events-with_errors :
    (es : List ParsedEvent) (n : ℕ) (p : Pipeline)
    → push_events es (with_errors n p) ≡ with_errors n (push_events es p)
push_events-with_errors [] n p = refl
push_events-with_errors (e ∷ es) n p =
    ap (push_events es) (push_event-with_errors e n p)
    ∙ push_events-with_errors es n (push_event e p)

with_errors-add : (m n : ℕ) (p : Pipeline) → with_errors m (with_errors n p) ≡ with_errors (m + n) p
with_errors-add m n p =
    ap (λ k. record p { stats = record (p.stats) { parse_errors = k } }) (omega arith)

push_event-parse_errors :
    (e : ParsedEvent) (p : Pipeline) → (push_event e p).stats.parse_errors ≡ p.stats.parse_errors
unfolding push_event
push_event-parse_errors e p = elim (Bool-cases (try_push q2_capacity p.q2 e).1) [
  | inl y ↦ rw (y, push_event) refl
  | inr f ↦ rw (f, push_event) refl
]

-- Whichever message fails, the good ones are pushed in order and the errors are counted.
push_views-parse_views :
    (ts : ℕ) (vs : List MessageView) (p : Pipeline)
    → p.stats.parse_errors < 2 ^ 64
    → push_views ts vs p ≡ push_events (parse_views ts vs).0 (with_errors (parse_views ts vs).1 p)
unfolding push_views parse_views
push_views-parse_views ts [] p h =
    ap (λ k. record p { stats = record (p.stats) { parse_errors = k } }) (omega arith)
push_views-parse_views ts (v ∷ vs) p h =
    let e : ParsedEvent = record { message = Encoder.parse v.bytes; receive_timestamp = ts } in
    let es = (parse_views ts vs).0 in
    let n = (parse_views ts vs).1 in
    elim (Bool-cases (is_ok (validate v.bytes v.len))) [
      | inl y ↦ rw y (
          push_views-parse_views ts vs (push_event e p) (omega (arith, push_event-parse_errors e p))
          ∙ ap (push_events es) (sym (push_event-with_errors e n p)))
      | inr f ↦ rw f (
          push_views-parse_views ts vs (with_errors 1 p) (omega arith)
          ∙ ap (push_events es) (with_errors-add n 1 p))
    ]

parse_packet-push_events :
    (pkt : RawPacket) (p : Pipeline)
    → p.stats.parse_errors < 2 ^ 64
    → parse_packet pkt p
      ≡ push_events
          (ParserStage.parse_packet pkt).0
          (with_errors (ParserStage.parse_packet pkt).1 p)
unfolding parse_packet ParserStage.parse_packet
parse_packet-push_events pkt p h = elim (Bool-cases (is_ok (parse_datagram pkt.bytes).error)) [
  | inl y ↦
      rw y (push_views-parse_views pkt.receive_timestamp (parse_datagram pkt.bytes).messages p h)
  | inr f ↦ rw f refl
]
