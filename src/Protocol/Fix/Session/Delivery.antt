-- ===== src/Protocol/Fix/Session/Delivery.antt =====
-- Messages that one session stamps and another receives.
use real_time_market_data_fe.Base.{
  ℕ, ◌+◌, ◌^◌, ◌<◌, ◌≡◌, ◌∙◌, refl, sym, ap, ◌==◌, ltb, ◌||◌, Bool, false, Option, some, List, [],
  ◌∷◌, ◌++◌, arith, not,
}
use real_time_market_data_fe.Protocol.Fix.Text.{same_refl}
use real_time_market_data_fe.Protocol.Fix.Message.{FixMessage, get_tag, msg_type, msg_seq_num}
use real_time_market_data_fe.Protocol.Fix.Session.{FixSession}
use real_time_market_data_fe.Protocol.Fix.Session.Handlers.{
  on_message_received, accept, dispatch, differs,
}
use real_time_market_data_fe.Protocol.Fix.Session.Header.{
  on_wire, sender-on_wire, target-on_wire, msg_type-on_wire, msg_seq_num-on_wire,
}
use real_time_market_data_fe.Protocol.Fix.Tag
use real_time_market_data_fe.Protocol.Fix.MsgType
use real_time_market_data_fe.Base.Words.{add32}

-- `b` is `a`'s counterparty, and expects the number that `a` sends next.
pub record Follows (a b : FixSession) : Type 0 where
  pub from : b.target_comp_id ≡ a.sender_comp_id
  pub to : b.sender_comp_id ≡ a.target_comp_id
  pub expected : b.inbound_seq ≡ a.outbound_seq

-- The types that `on_message_received` handles itself.
abbrev pub is_session_type : ℕ → Bool
is_session_type t =
    t == MsgType.logon
    || t == MsgType.logout
    || t == MsgType.heartbeat
    || t == MsgType.test_request
    || t == MsgType.resend_request
    || t == MsgType.reject
    || t == MsgType.sequence_reset

pub differs-same : (o : Option (List ℕ)) (v w : List ℕ) → o ≡ some v → w ≡ v → differs o w ≡ false
differs-same o v w e f = rw e (rw f (ap not (same_refl v)))

not_less : (n : ℕ) → ltb n n ≡ false
not_less n = ground arith

module _ (steady now_ns : ℕ → ℕ) (sending_time : ℕ → List ℕ) where
  -- The session that has noted the time of a message, and accepted its number.
  abbrev pub expecting : ℕ → FixSession → FixSession
  expecting seq s = record s {
    last_recv_time = steady s.reads;
    reads = s.reads + 1;
    inbound_seq = add32 seq 1;
  }

  accept-expected :
      (seq : ℕ) (m : FixMessage) (s : FixSession)
      → seq ≡ s.inbound_seq
      → accept steady now_ns sending_time seq m s
        ≡ dispatch steady now_ns sending_time
            (msg_type m)
            m
            (record s { inbound_seq = add32 seq 1 })
  unfolding accept
  accept-expected seq m s e = rw (e, accept) (rw (not_less s.inbound_seq, accept) refl)

  on_message_received-expected :
      (m : FixMessage) (s : FixSession) (seq : ℕ)
      → differs (get_tag Tag.sender_comp_id m) s.target_comp_id ≡ false
      → differs (get_tag Tag.target_comp_id m) s.sender_comp_id ≡ false
      → (msg_type m == MsgType.sequence_reset) ≡ false
      → msg_seq_num m ≡ seq
      → seq ≡ s.inbound_seq
      → on_message_received steady now_ns sending_time m s
        ≡ dispatch steady now_ns sending_time (msg_type m) m (expecting seq s)
  unfolding on_message_received
  on_message_received-expected m s seq d d' t n e =
      let heard : FixSession = record s { last_recv_time = steady s.reads; reads = s.reads + 1 } in
      rw (d, on_message_received)
        (rw (d', on_message_received)
          (rw (t, on_message_received) (rw n (accept-expected seq m heard e))))

  pub dispatch-app :
      (t : ℕ) (m : FixMessage) (s : FixSession)
      → is_session_type t ≡ false
      → dispatch steady now_ns sending_time t m s ≡ record s { delivered = s.delivered ++ (m ∷ []) }
  unfolding dispatch
  dispatch-app t m s h = ground (arith, h)

-- `a` sends with its clocks what `b` receives with its own.
module _ (steady now_ns : ℕ → ℕ) (sending_time : ℕ → List ℕ) (steady_b now_ns_b : ℕ → ℕ)
    (sending_time_b : ℕ → List ℕ) where
  pub on_message_received-on_wire :
      (a b : FixSession) (m : FixMessage)
      → Follows a b
      → a.outbound_seq < 2 ^ 31
      → (msg_type m == MsgType.sequence_reset) ≡ false
      → on_message_received steady_b now_ns_b sending_time_b
          (on_wire steady now_ns sending_time a m)
          b
        ≡ dispatch steady_b now_ns_b sending_time_b
            (msg_type m)
            (on_wire steady now_ns sending_time a m)
            (expecting steady_b now_ns_b sending_time_b a.outbound_seq b)
  on_message_received-on_wire a b m f h t =
      let w = on_wire steady now_ns sending_time a m in
      let type = msg_type-on_wire steady now_ns sending_time a m in
      on_message_received-expected steady_b now_ns_b sending_time_b w b a.outbound_seq
        (differs-same (get_tag Tag.sender_comp_id w) a.sender_comp_id b.target_comp_id
          (sender-on_wire steady now_ns sending_time a m) f.from)
        (differs-same (get_tag Tag.target_comp_id w) a.target_comp_id b.sender_comp_id
          (target-on_wire steady now_ns sending_time a m) f.to)
        (ap (λ x. x == MsgType.sequence_reset) type ∙ t)
        (msg_seq_num-on_wire steady now_ns sending_time a m h) (sym f.expected)
      ∙ ap
          (λ x.
            dispatch steady_b now_ns_b sending_time_b x w
              (expecting steady_b now_ns_b sending_time_b a.outbound_seq b))
          type
