-- ===== src/Protocol/Fix/Session/Handshake.antt =====
-- Two sessions that log on to each other.
use real_time_market_data_fe.Base.{
  ℕ, ◌^◌, ◌<◌, ◌≡◌, ◌∙◌, refl, sym, ap, subst, ◌==◌, false, Bool-cases, inl, inr, List, [], ◌∷◌,
  ◌++◌,
}
use real_time_market_data_fe.Protocol.Fix.Message.{FixMessage, serialize}
use real_time_market_data_fe.Protocol.Fix.Session.{
  FixSession, SessionState, disconnected, logon_sent, active, code_of, transition, stamped,
  send_message, send_logon, logon,
}
use real_time_market_data_fe.Protocol.Fix.Session.Handlers.{on_message_received, answer_logon}
use real_time_market_data_fe.Protocol.Fix.Session.Header.{on_wire}
use real_time_market_data_fe.Protocol.Fix.Session.Delivery.{Follows}
use real_time_market_data_fe.Protocol.Fix.Session.Logon.{
  transition-state, Follows-transition_right, Follows-transition_left, greeted, receive_logon,
}

-- What a transition keeps.
pub transition-sent : (t : SessionState) (s : FixSession) → (transition t s).sent ≡ s.sent
unfolding transition
transition-sent t s = elim (Bool-cases (code_of s.state == code_of t)) [
  | inl y ↦ rw (y, transition) refl
  | inr n ↦ rw (n, transition) refl
]

transition-interval :
    (t : SessionState) (s : FixSession)
    → (transition t s).heartbeat_interval_sec ≡ s.heartbeat_interval_sec
unfolding transition
transition-interval t s = elim (Bool-cases (code_of s.state == code_of t)) [
  | inl y ↦ rw (y, transition) refl
  | inr n ↦ rw (n, transition) refl
]

Follows-transition :
    (c d : FixSession) → Follows c d → Follows (transition active c) (transition active d)
Follows-transition c d f =
    Follows-transition_right active (transition active c) d (Follows-transition_left active c d f)

-- Two sessions, each of which expects what the other sends next.
abbrev pub InStep : FixSession → FixSession → Type 0
InStep a b = Follows a b × Follows b a

module _ (steady now_ns : ℕ → ℕ) (sending_time : ℕ → List ℕ) (steady_b now_ns_b : ℕ → ℕ)
    (sending_time_b : ℕ → List ℕ) where
  -- The initiator after its logon, the logon as the other side reads it, the acceptor after it.
  abbrev pub initiator : FixSession → FixSession
  initiator a = send_logon steady now_ns sending_time false a

  abbrev pub first_logon : FixSession → FixMessage
  first_logon a = on_wire steady now_ns sending_time a (logon steady now_ns sending_time a)

  abbrev pub acceptor : FixSession → FixSession → FixSession
  acceptor a b = on_message_received steady_b now_ns_b sending_time_b (first_logon a) b

  -- The acceptor when it answers, and its answer.
  abbrev pub greeting : FixSession → FixSession → FixSession
  greeting a b = greeted steady now_ns sending_time steady_b now_ns_b sending_time_b a b

  abbrev pub reply : FixSession → FixSession → FixMessage
  reply a b = logon steady_b now_ns_b sending_time_b (greeting a b)

  abbrev pub confirmed : FixSession → FixSession → FixSession
  confirmed a b =
      on_message_received steady now_ns sending_time
        (on_wire steady_b now_ns_b sending_time_b (greeting a b) (reply a b)) (initiator a)

  acceptor_lem :
      (a b : FixSession)
      → Follows a b
      → b.state ≡ disconnected
      → a.outbound_seq < 2 ^ 31
      → 0 < a.heartbeat_interval_sec
      → a.heartbeat_interval_sec < 2 ^ 31
      → acceptor a b
        ≡ transition active
            (send_message steady_b now_ns_b sending_time_b (greeting a b) (reply a b))
  unfolding answer_logon
  acceptor_lem a b f down room pos small =
      receive_logon steady now_ns sending_time steady_b now_ns_b sending_time_b a b f room pos small
      ∙ ap (answer_logon steady_b now_ns_b sending_time_b (greeting a b)) down

  initiator-Follows : (a b : FixSession) → Follows b a → Follows (greeting a b) (initiator a)
  unfolding send_logon send_message
  initiator-Follows a b f =
      Follows-transition_right logon_sent (greeting a b)
        (send_message steady now_ns sending_time a (logon steady now_ns sending_time a))
        (record { from = f.from; to = f.to; expected = f.expected })

  initiator-heard : (a b : FixSession) → Follows a b → Follows (initiator a) (greeting a b)
  unfolding send_logon send_message
  initiator-heard a b f =
      Follows-transition_left logon_sent
        (send_message steady now_ns sending_time a (logon steady now_ns sending_time a))
        (greeting a b) (record { from = f.from; to = f.to; expected = refl })

  initiator-state : (a : FixSession) → (initiator a).state ≡ logon_sent
  unfolding send_logon
  initiator-state a =
      transition-state logon_sent
        (send_message steady now_ns sending_time a (logon steady now_ns sending_time a))

  confirmed_lem :
      (a b : FixSession)
      → Follows b a
      → b.outbound_seq < 2 ^ 31
      → 0 < a.heartbeat_interval_sec
      → a.heartbeat_interval_sec < 2 ^ 31
      → confirmed a b
        ≡ transition active (
            greeted steady_b now_ns_b sending_time_b steady now_ns sending_time
              (greeting a b)
              (initiator a))
  unfolding answer_logon
  confirmed_lem a b f room pos small =
      receive_logon steady_b now_ns_b sending_time_b steady now_ns sending_time (greeting a b)
        (initiator a) (initiator-Follows a b f) room pos small
      ∙ ap
          (answer_logon steady now_ns sending_time (
            greeted steady_b now_ns_b sending_time_b steady now_ns sending_time (greeting a b)
              (initiator a)))
          (initiator-state a)

  confirmed-InStep :
      (a b : FixSession)
      → InStep a b
      → InStep
          (transition active (
            greeted steady_b now_ns_b sending_time_b steady now_ns sending_time
              (greeting a b)
              (initiator a)))
          (transition active
            (send_message steady_b now_ns_b sending_time_b (greeting a b) (reply a b)))
  unfolding send_message
  confirmed-InStep a b f =
      let c =
        greeted steady_b now_ns_b sending_time_b steady now_ns sending_time (greeting a b)
          (initiator a) in
      let d = send_message steady_b now_ns_b sending_time_b (greeting a b) (reply a b) in
      let k = initiator-heard a b f.0 in
      let l = initiator-Follows a b f.1 in
      (
        Follows-transition c d (record { from = k.from; to = k.to; expected = k.expected }),
        Follows-transition d c (record { from = l.from; to = l.to; expected = refl }),
      )

  initiator-sent :
      (a : FixSession)
      → (initiator a).sent
        ≡ a.sent
          ++ (serialize (stamped steady now_ns sending_time a (logon steady now_ns sending_time a))
              ∷ [])
  unfolding send_logon send_message
  initiator-sent a =
      transition-sent logon_sent
        (send_message steady now_ns sending_time a (logon steady now_ns sending_time a))

  reply-sent :
      (a b : FixSession)
      → (transition active
          (send_message steady_b now_ns_b sending_time_b (greeting a b) (reply a b))).sent
        ≡ b.sent
          ++ (serialize (stamped steady_b now_ns_b sending_time_b (greeting a b) (reply a b)) ∷ [])
  unfolding send_message
  reply-sent a b =
      transition-sent active
        (send_message steady_b now_ns_b sending_time_b (greeting a b) (reply a b))

  reply-interval :
      (a b : FixSession)
      → (transition active (
          send_message steady_b now_ns_b sending_time_b
            (greeting a b)
            (reply a b))).heartbeat_interval_sec
        ≡ a.heartbeat_interval_sec
  unfolding send_message
  reply-interval a b =
      transition-interval active
        (send_message steady_b now_ns_b sending_time_b (greeting a b) (reply a b))

  -- A logon, received by a disconnected counterparty, and its answer, received in turn, make both
  -- sessions active with the initiator's heartbeat interval, and leave them in step, if they were in
  -- step before, the numbers and the interval are below 2^31, and the interval is positive.
  pub logon-handshake :
      (a b : FixSession)
      → InStep a b
      → b.state ≡ disconnected
      → a.outbound_seq < 2 ^ 31
      → b.outbound_seq < 2 ^ 31
      → 0 < a.heartbeat_interval_sec
      → a.heartbeat_interval_sec < 2 ^ 31
      → ((initiator a).sent
          ≡ a.sent
            ++ (serialize
                  (stamped steady now_ns sending_time a (logon steady now_ns sending_time a))
                ∷ []))
        × (((acceptor a b).sent
              ≡ b.sent
                ++ (serialize (stamped steady_b now_ns_b sending_time_b (greeting a b) (reply a b))
                    ∷ []))
            × (((confirmed a b).state ≡ active)
                × (((acceptor a b).state ≡ active)
                    × (((confirmed a b).heartbeat_interval_sec ≡ a.heartbeat_interval_sec)
                        × (((acceptor a b).heartbeat_interval_sec ≡ a.heartbeat_interval_sec)
                            × InStep (confirmed a b) (acceptor a b))))))
  logon-handshake a b f down room room_b pos small =
      let c =
        greeted steady_b now_ns_b sending_time_b steady now_ns sending_time (greeting a b)
          (initiator a) in
      let d = send_message steady_b now_ns_b sending_time_b (greeting a b) (reply a b) in
      let ac = acceptor_lem a b f.0 down room pos small in
      let co = confirmed_lem a b f.1 room_b pos small in
      (
        initiator-sent a,
        (
          ap (λ s. s.sent) ac ∙ reply-sent a b,
          (
            ap (λ s. s.state) co ∙ transition-state active c,
            (
              ap (λ s. s.state) ac ∙ transition-state active d,
              (
                ap (λ s. s.heartbeat_interval_sec) co ∙ transition-interval active c,
                (
                  ap (λ s. s.heartbeat_interval_sec) ac ∙ reply-interval a b,
                  subst (λ s. InStep s (acceptor a b)) (sym co)
                      (subst (InStep (transition active c)) (sym ac) (confirmed-InStep a b f)),
                ),
              ),
            ),
          ),
        ),
      )
