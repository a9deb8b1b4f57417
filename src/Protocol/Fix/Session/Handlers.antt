-- ===== src/Protocol/Fix/Session/Handlers.antt =====
-- What a session does with a received message, and its periodic check.
use real_time_market_data_fe.Base.{
  ℕ, ◌+◌, ◌-◌, ◌%◌, ◌^◌, ◌==◌, ltb, leb, ◌&&◌, if◌then◌else◌, Bool, false, Option, none, some, List,
  [], ◌∷◌, ◌++◌, not,
}
use real_time_market_data_fe.Protocol.Fix.Text.{codes, same}
use real_time_market_data_fe.Protocol.Fix.Message.{
  FixMessage, set_tag, set_tag_char, set_tag_int, get_tag, get_tag_int, serialize, msg_type,
  msg_seq_num,
}
use real_time_market_data_fe.Protocol.Fix.Session.{
  FixSession, SessionState, disconnected, logon_sent, active, logout_sent, transition, send_message,
  logon, of_type, set_if_some, send_resend_request, has_passed, is_empty, request_test, code_of,
  text_yes,
}
use real_time_market_data_fe.Protocol.Fix.Tag
use real_time_market_data_fe.Protocol.Fix.MsgType
use real_time_market_data_fe.Base.Words.{add32}

-- `*v > 0` on an `int64_t`.
abbrev pub is_positive : ℕ → Bool
is_positive v = ltb 0 v && ltb v (2 ^ 63)

abbrev pub is_yes : Option (List ℕ) → Bool
is_yes none = false
is_yes (some v) = same v text_yes

-- A field that is there and says something else.
abbrev pub differs : Option (List ℕ) → List ℕ → Bool
differs none expected = false
differs (some v) expected = not (same v expected)

abbrev pub accept_interval : Option ℕ → FixSession → FixSession
accept_interval none s = s
accept_interval (some v) s =
    if is_positive v then record s { heartbeat_interval_sec = v % 2 ^ 32 } else s

unfoldable pub handle_sequence_reset : FixMessage → FixSession → FixSession
unfolding get_tag_int get_tag same
handle_sequence_reset m s = elim (get_tag_int Tag.new_seq_no m) [
  | none ↦ s
  | some v ↦
      if is_yes (get_tag Tag.gap_fill_flag m) && leb (v % 2 ^ 32) s.inbound_seq
      then s
      else record s { inbound_seq = v % 2 ^ 32 }
]

unfoldable pub handle_heartbeat : FixMessage → FixSession → FixSession
unfolding get_tag same
handle_heartbeat m s = elim (get_tag Tag.test_req_id m) [
  | none ↦ s
  | some id ↦ if same id s.pending_test_req_id then record s { pending_test_req_id = [] } else s
]

module _ (steady now_ns : ℕ → ℕ) (sending_time : ℕ → List ℕ) where
  -- A counterparty that confirms the logon, or one that initiates it.
  unfoldable pub answer_logon : FixSession → SessionState → FixSession
  answer_logon s logon_sent = transition active s
  answer_logon s disconnected =
      transition active
        (send_message steady now_ns sending_time s (logon steady now_ns sending_time s))
  answer_logon s active = s
  answer_logon s logout_sent = s

  unfoldable pub handle_logon : FixMessage → FixSession → FixSession
  handle_logon m s =
      let accepted = accept_interval (get_tag_int Tag.heart_bt_int m) s in
      let answered = answer_logon accepted accepted.state in
      if is_yes (get_tag Tag.reset_seq_num_flag m)
      then record answered { inbound_seq = add32 (msg_seq_num m) 1 }
      else answered

  unfoldable pub answer_logout : Option (List ℕ) → FixSession → SessionState → FixSession
  unfolding transition send_message set_tag_char set_tag
  answer_logout text s logout_sent = transition disconnected s
  answer_logout text s other = transition disconnected (
      send_message steady now_ns sending_time s
        (set_if_some Tag.text text (of_type MsgType.logout)))

  unfoldable pub handle_logout : FixMessage → FixSession → FixSession
  unfolding get_tag answer_logout
  handle_logout m s = answer_logout (get_tag Tag.text m) s s.state

  unfoldable pub handle_test_request : FixMessage → FixSession → FixSession
  unfolding get_tag send_message set_tag_char set_tag
  handle_test_request m s =
      send_message steady now_ns sending_time s
        (set_if_some Tag.test_req_id (get_tag Tag.test_req_id m) (of_type MsgType.heartbeat))

  abbrev pub end_seq : Option ℕ → ℕ → ℕ
  end_seq none outbound = outbound
  end_seq (some v) outbound = if is_positive v then (v + 1) % 2 ^ 32 else outbound

  -- The answer that skips a gap.
  unfoldable pub gap_fill : FixSession → ℕ → Option ℕ → FixMessage
  unfolding set_tag_char set_tag_int set_tag
  gap_fill s begin_seq last = set_tag Tag.sending_time (sending_time s.reads) (
      set_tag Tag.target_comp_id s.target_comp_id (
        set_tag Tag.sender_comp_id s.sender_comp_id (
          set_tag_int Tag.msg_seq_num (begin_seq % 2 ^ 32) (
            set_tag_int Tag.new_seq_no (end_seq last s.outbound_seq)
              (set_tag Tag.gap_fill_flag text_yes (of_type MsgType.sequence_reset))))))

  unfoldable pub handle_resend_request : FixMessage → FixSession → FixSession
  unfolding get_tag_int gap_fill serialize
  handle_resend_request m s = elim (get_tag_int Tag.begin_seq_no m) [
    | none ↦ s
    | some begin_seq ↦ record s {
      last_send_time = steady (s.reads + 1);
      reads = s.reads + 2;
      sent = s.sent ++ (serialize (gap_fill s begin_seq (get_tag_int Tag.end_seq_no m)) ∷ []);
    }
  ]

  unfoldable pub dispatch : ℕ → FixMessage → FixSession → FixSession
  dispatch type m s =
      if type == MsgType.logon
      then handle_logon m s
      else if type == MsgType.logout
      then handle_logout m s
      else if type == MsgType.heartbeat
      then handle_heartbeat m s
      else if type == MsgType.test_request
      then handle_test_request m s
      else if type == MsgType.resend_request
      then handle_resend_request m s
      else if type == MsgType.reject
      then s
      else record s { delivered = s.delivered ++ (m ∷ []) }

  -- The sequence check and what follows it.
  unfoldable pub accept : ℕ → FixMessage → FixSession → FixSession
  accept seq m s =
      let asked =
        if ltb s.inbound_seq seq
        then send_resend_request steady now_ns sending_time s.inbound_seq (seq - 1) s
        else s in
      if ltb seq s.inbound_seq
      then s
      else dispatch (msg_type m) m (record asked { inbound_seq = add32 seq 1 })

  unfoldable pub on_message_received : FixMessage → FixSession → FixSession
  on_message_received m s =
      let heard = record s { last_recv_time = steady s.reads; reads = s.reads + 1 } in
      if differs (get_tag Tag.sender_comp_id m) s.target_comp_id
      then heard
      else if differs (get_tag Tag.target_comp_id m) s.sender_comp_id
      then heard
      else if msg_type m == MsgType.sequence_reset
      then handle_sequence_reset m heard
      else accept (msg_seq_num m) m heard

  -- The check of the receiving side, at time `now`.
  unfoldable pub check_silence : ℕ → FixSession → FixSession
  unfolding request_test send_message transition set_tag_char set_tag
  check_silence now s =
      if not (has_passed now s.last_recv_time s.heartbeat_interval_sec 2)
      then s
      else if is_empty s.pending_test_req_id
      then record (request_test steady now_ns sending_time s) { test_request_sent_time = now }
      else if has_passed now s.test_request_sent_time s.heartbeat_interval_sec 0
      then transition logout_sent (
          send_message steady now_ns sending_time s
            (set_tag Tag.text (codes "TestRequest timeout") (of_type MsgType.logout)))
      else s

  unfoldable pub check_heartbeat : FixSession → FixSession
  unfolding send_message check_silence set_tag_char
  check_heartbeat s =
      let now = steady s.reads in
      let s1 = record s { reads = s.reads + 1 } in
      let s2 =
        if has_passed now s.last_send_time s.heartbeat_interval_sec 0
        then send_message steady now_ns sending_time s1 (of_type MsgType.heartbeat)
        else s1 in
      if not (code_of s.state == code_of active) then s else check_silence now s2
