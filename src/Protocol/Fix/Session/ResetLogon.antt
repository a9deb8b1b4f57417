-- ===== src/Protocol/Fix/Session/ResetLogon.antt =====
-- A logon that asks for a reset of the sequence numbers, `send_logon(true)`, at a counterparty that
-- has received messages before.
use real_time_market_data_fe.Base.{
  ℕ, ◌+◌, ◌<◌, ◌≡◌, ◌∙◌, refl, ap, ◌==◌, ltb, true, false, List, [], ◌∷◌, ◌++◌, arith,
}
use real_time_market_data_fe.Protocol.Fix.Message.{
  FixMessage, serialize, get_tag, msg_type, msg_seq_num, set_tag, set_tag_char, set_tag_int,
}
use real_time_market_data_fe.Protocol.Fix.Session.{
  FixSession, stamped, send_message, send_logon, logon, logon_sent, text_yes,
}
use real_time_market_data_fe.Protocol.Fix.Session.Handlers.{on_message_received, accept, differs}
use real_time_market_data_fe.Protocol.Fix.Session.Header.{
  on_wire, sender-on_wire, target-on_wire, msg_type-on_wire, msg_seq_num-on_wire,
}
use real_time_market_data_fe.Protocol.Fix.Session.Delivery.{differs-same}
use real_time_market_data_fe.Protocol.Fix.Session.Handshake.{transition-sent}
use real_time_market_data_fe.Protocol.Fix.Tag
use real_time_market_data_fe.Protocol.Fix.MsgType

module _ (steady now_ns : ℕ → ℕ) (sending_time : ℕ → List ℕ) where
  -- The session that has noted the time of a message, and nothing else of it.
  abbrev pub noted : FixSession → FixSession
  noted s = record s { last_recv_time = steady s.reads; reads = s.reads + 1 }

  accept-duplicate :
      (seq : ℕ) (m : FixMessage) (s : FixSession)
      → seq < s.inbound_seq
      → accept steady now_ns sending_time seq m s ≡ s
  unfolding accept
  accept-duplicate seq m s h = rw (less seq s.inbound_seq h, accept) refl
    where
      less : (x y : ℕ) → x < y → ltb x y ≡ true
      less x y k = ground arith

  pub on_message_received-duplicate :
      (m : FixMessage) (s : FixSession)
      → differs (get_tag Tag.sender_comp_id m) s.target_comp_id ≡ false
      → differs (get_tag Tag.target_comp_id m) s.sender_comp_id ≡ false
      → (msg_type m == MsgType.sequence_reset) ≡ false
      → msg_seq_num m < s.inbound_seq
      → on_message_received steady now_ns sending_time m s ≡ noted s
  unfolding on_message_received
  on_message_received-duplicate m s d d' t low =
      rw (d, on_message_received)
        (rw (d', on_message_received)
          (rw (t, on_message_received) (accept-duplicate (msg_seq_num m) m (noted s) low)))

  -- The session from which a reset logon is sent, and that logon.
  abbrev pub restarted : FixSession → FixSession
  restarted s = record s { outbound_seq = 1; inbound_seq = 1 }

  abbrev pub reset_logon : FixSession → FixMessage
  unfolding set_tag
  reset_logon s =
      set_tag Tag.reset_seq_num_flag text_yes (logon steady now_ns sending_time (restarted s))

  reset_logon-sent :
      (s : FixSession)
      → (send_logon steady now_ns sending_time true s).sent
        ≡ s.sent
          ++ (serialize (stamped steady now_ns sending_time (restarted s) (reset_logon s)) ∷ [])
  unfolding send_logon send_message
  reset_logon-sent s =
      transition-sent logon_sent
        (send_message steady now_ns sending_time (restarted s) (reset_logon s))

  reset_logon-type : (s : FixSession) → (msg_type (reset_logon s) == MsgType.sequence_reset) ≡ false
  unfolding logon get_tag set_tag_char set_tag_int set_tag msg_type
  reset_logon-type s = refl

module _ (steady now_ns : ℕ → ℕ) (sending_time : ℕ → List ℕ) (steady_b now_ns_b : ℕ → ℕ)
    (sending_time_b : ℕ → List ℕ) where
  -- A counterparty that expects a number above 1 ignores a logon that resets the sequence numbers: it
  -- changes nothing but the time of its last message, and sends no answer.
  pub reset_logon-ignored :
      (a b : FixSession)
      → b.target_comp_id ≡ a.sender_comp_id
      → b.sender_comp_id ≡ a.target_comp_id
      → 1 < b.inbound_seq
      → ((send_logon steady now_ns sending_time true a).sent
          ≡ a.sent
            ++ (serialize (
                  stamped steady now_ns sending_time
                    (restarted steady now_ns sending_time a)
                    (reset_logon steady now_ns sending_time a))
                ∷ []))
        × (on_message_received steady_b now_ns_b sending_time_b
              (on_wire steady now_ns sending_time
                (restarted steady now_ns sending_time a)
                (reset_logon steady now_ns sending_time a))
              b
            ≡ noted steady_b now_ns_b sending_time_b b)
  reset_logon-ignored a b from to old =
      let r = restarted steady now_ns sending_time a in
      let m = reset_logon steady now_ns sending_time a in
      let w = on_wire steady now_ns sending_time r m in
      (
        reset_logon-sent steady now_ns sending_time a,
        on_message_received-duplicate steady_b now_ns_b sending_time_b w b
            (differs-same (get_tag Tag.sender_comp_id w) a.sender_comp_id b.target_comp_id
              (sender-on_wire steady now_ns sending_time r m) from)
            (differs-same (get_tag Tag.target_comp_id w) a.target_comp_id b.sender_comp_id
              (target-on_wire steady now_ns sending_time r m) to)
            (ap (λ x. x == MsgType.sequence_reset) (msg_type-on_wire steady now_ns sending_time r m)
              ∙ reset_logon-type steady now_ns sending_time a)
            (omega (arith, msg_seq_num-on_wire steady now_ns sending_time r m (omega arith))),
      )
