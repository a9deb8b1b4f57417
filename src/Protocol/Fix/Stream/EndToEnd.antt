-- ===== src/Protocol/Fix/Stream/EndToEnd.antt =====
-- Application messages from one session to a gateway, through the bytes of a TCP stream.
use real_time_market_data_fe.Base.{
  ℕ, suc, ◌+◌, ◌^◌, ◌<◌, ◌≤◌, ◌≡◌, ◌∙◌, refl, sym, ap, subst, ◌==◌, false, Bool-cases, inl, inr,
  Option, List, [], ◌∷◌, ◌++◌, append-nil, append_assoc, arith, All, length, flatten, map,
}
use real_time_market_data_fe.Protocol.Fix.Message.{FixMessage, serialize, msg_type}
use real_time_market_data_fe.Protocol.Fix.Message.RoundTrip.{enveloped}
use real_time_market_data_fe.Protocol.Fix.Session.{
  FixSession, stamped, send_app_message, send_message,
}
use real_time_market_data_fe.Protocol.Fix.Session.Handlers.{on_message_received}
use real_time_market_data_fe.Protocol.Fix.Session.Header.{on_wire}
use real_time_market_data_fe.Protocol.Fix.Session.Delivery.{
  Follows, is_session_type, expecting, dispatch-app, on_message_received-on_wire,
}
use real_time_market_data_fe.Protocol.Fix.Gateway.{
  FixGateway, handle_execution_report, handle_cancel_reject,
}
use real_time_market_data_fe.Protocol.Fix.Stream.{receive, on_app_message}
use real_time_market_data_fe.Protocol.Fix.Stream.Cuts.{stream, IsSendable}
use real_time_market_data_fe.Protocol.Fix.Stream.Reassembly.{received, feed, feed-stream}
use real_time_market_data_fe.Protocol.Fix.MsgType

abbrev pub IsAppMessage : FixMessage → Type 0
IsAppMessage m = is_session_type (msg_type m) ≡ false

app-not_reset : (m : FixMessage) → IsAppMessage m → (msg_type m == MsgType.sequence_reset) ≡ false
app-not_reset m h = ground (arith, h)

module _ (steady now_ns : ℕ → ℕ) (sending_time : ℕ → List ℕ) where
  abbrev pub send_all : List FixMessage → FixSession → FixSession
  send_all [] s = s
  send_all (m ∷ ms) s = send_all ms (send_app_message steady now_ns sending_time m s)

  -- The messages with the headers that the session stamps on them.
  abbrev pub stamped_all : List FixMessage → FixSession → List FixMessage
  stamped_all [] s = []
  stamped_all (m ∷ ms) s =
      stamped steady now_ns sending_time s m
      ∷ stamped_all ms (send_app_message steady now_ns sending_time m s)

  send_all-sent :
      (ms : List FixMessage) (s : FixSession)
      → (send_all ms s).sent ≡ s.sent ++ map serialize (stamped_all ms s)
  unfolding send_app_message send_message
  send_all-sent [] s = sym (append-nil s.sent)
  send_all-sent (m ∷ ms) s =
      let w = serialize (stamped steady now_ns sending_time s m) in
      let after : FixSession = send_app_message steady now_ns sending_time m s in
      send_all-sent ms after ∙ append_assoc s.sent (w ∷ []) (map serialize (stamped_all ms after))

  next-room :
      (s : FixSession) (m : FixMessage) (ms : List FixMessage)
      → s.outbound_seq + suc (length ms) ≤ 2 ^ 31
      → (send_app_message steady now_ns sending_time m s).outbound_seq + length ms ≤ 2 ^ 31
  unfolding send_app_message send_message
  next-room s m ms h = omega arith

  module _ (steady_b now_ns_b : ℕ → ℕ) (sending_time_b : ℕ → List ℕ)
      (stod : List ℕ → Option ℕ) where
    on_app_message-session :
        (m : FixMessage) (g : FixGateway)
        → (on_app_message steady_b now_ns_b sending_time_b stod m g).session ≡ g.session
    unfolding on_app_message handle_execution_report handle_cancel_reject
    on_app_message-session m g = elim (Bool-cases (msg_type m == MsgType.execution_report)) [
      | inl y ↦ rw (y, on_app_message) refl
      | inr n ↦ elim (Bool-cases (msg_type m == MsgType.order_cancel_reject)) [
        | inl y ↦ rw (n, on_app_message) (rw (y, on_app_message) refl)
        | inr n' ↦ rw (n, on_app_message) (rw (n', on_app_message) refl)
      ]
    ]

    receive-session :
        (m : FixMessage) (g : FixGateway)
        → (receive steady_b now_ns_b sending_time_b stod m g).session
          ≡ on_message_received steady_b now_ns_b sending_time_b m g.session
    unfolding receive
    receive-session m g =
        let s : FixSession = on_message_received steady_b now_ns_b sending_time_b m g.session in
        elim (Bool-cases (length s.delivered == length g.session.delivered)) [
          | inl y ↦ rw (y, receive) refl
          | inr n ↦ rw (n, receive) (on_app_message-session m (record g { session = s }))
        ]

    -- The session that has delivered one message of the counterparty.
    abbrev heard : FixSession → FixMessage → FixSession → FixSession
    heard a m b = record (expecting steady_b now_ns_b sending_time_b a.outbound_seq b) {
      delivered = b.delivered ++ (on_wire steady now_ns sending_time a m ∷ []);
    }

    receive-app :
        (a : FixSession) (m : FixMessage) (g : FixGateway)
        → Follows a g.session
        → a.outbound_seq < 2 ^ 31
        → IsAppMessage m
        → (receive steady_b now_ns_b sending_time_b stod
            (on_wire steady now_ns sending_time a m)
            g).session
          ≡ heard a m g.session
    receive-app a m g f h app =
        receive-session (on_wire steady now_ns sending_time a m) g
        ∙ on_message_received-on_wire steady now_ns sending_time steady_b now_ns_b sending_time_b a
            g.session m f h (app-not_reset m app)
        ∙ dispatch-app steady_b now_ns_b sending_time_b (msg_type m)
            (on_wire steady now_ns sending_time a m)
            (expecting steady_b now_ns_b sending_time_b a.outbound_seq g.session) app

    heard-Follows :
        (a b : FixSession) (m : FixMessage)
        → Follows a b
        → Follows (send_app_message steady now_ns sending_time m a) (heard a m b)
    unfolding send_app_message send_message
    heard-Follows a b m f = record { from = f.from; to = f.to; expected = refl }

    -- The numbers are accepted one after the other.
    received-delivered :
        (ms : List FixMessage) (a : FixSession) (g : FixGateway)
        → Follows a g.session
        → a.outbound_seq + length ms ≤ 2 ^ 31
        → All IsAppMessage ms
        → ((received steady_b now_ns_b sending_time_b stod (stamped_all ms a) g).session.delivered
            ≡ g.session.delivered ++ map enveloped (stamped_all ms a))
          × Follows
              (send_all ms a)
              (received steady_b now_ns_b sending_time_b stod (stamped_all ms a) g).session
    received-delivered [] a g f h app = (sym (append-nil g.session.delivered), f)
    received-delivered (m ∷ ms) a g f h app =
        let w : FixMessage = on_wire steady now_ns sending_time a m in
        let next : FixSession = send_app_message steady now_ns sending_time m a in
        let g' : FixGateway = receive steady_b now_ns_b sending_time_b stod w g in
        let e : g'.session ≡ heard a m g.session = receive-app a m g f (omega arith) app.0 in
        let ih =
          received-delivered ms next g'
            (subst (Follows next) (sym e) (heard-Follows a g.session m f)) (next-room a m ms h)
            app.1 in
        (
          ih.0
              ∙ ap (λ s. s.delivered ++ map enveloped (stamped_all ms next)) e
              ∙ append_assoc g.session.delivered (w ∷ []) (map enveloped (stamped_all ms next)),
          ih.1,
        )

    -- Application messages that one session sends, as far as its numbers stay below 2^31, are what the
    -- counterparty's gateway delivers, each once and in order, however TCP cuts the stream of their
    -- bytes; afterwards the counterparty expects the next number that the session sends. The
    -- counterparty expected the session's number before, and its buffer was empty; the stamped
    -- messages have at most 1 MB and fields that the wire can carry, and the stream fewer than 2^64
    -- bytes.
    pub deliver-end_to_end :
        (ms : List FixMessage) (a : FixSession) (g : FixGateway) (chunks : List (List ℕ))
        → Follows a g.session
        → g.recv_buf ≡ []
        → All IsAppMessage ms
        → All IsSendable (stamped_all ms a)
        → a.outbound_seq + length ms ≤ 2 ^ 31
        → length (stream (stamped_all ms a)) < 2 ^ 64
        → flatten chunks ≡ stream (stamped_all ms a)
        → ((send_all ms a).sent ≡ a.sent ++ map serialize (stamped_all ms a))
          × (((feed steady_b now_ns_b sending_time_b stod chunks g).session.delivered
                ≡ g.session.delivered ++ map enveloped (stamped_all ms a))
              × Follows
                  (send_all ms a)
                  (feed steady_b now_ns_b sending_time_b stod chunks g).session)
    deliver-end_to_end ms a g chunks f empty app wire room fits e =
        let d = received-delivered ms a g f room app in
        let s =
          ap (λ x. x.session)
            (feed-stream steady_b now_ns_b sending_time_b stod chunks (stamped_all ms a) g wire fits
              e empty) in
        (
          send_all-sent ms a,
          (ap (λ x. x.delivered) s ∙ d.0, subst (Follows (send_all ms a)) (sym s) d.1),
        )
