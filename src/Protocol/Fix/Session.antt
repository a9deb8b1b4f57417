-- ===== src/Protocol/Fix/Session.antt =====
-- `FixSession` of `include/qf/protocol/fix/fix_session.hpp`. Its mutex makes every public operation
-- one step. The callbacks are logs, oldest first: the bytes handed to `send_cb_`, the messages
-- handed to `app_msg_cb_`, the changes told to `state_cb_`. The clocks and the text of
-- `sending_time_str` are parameters, read at the session's count of reads so far. `uint32_t` and
-- `int` are numbers below 2^32, time points are nanoseconds.
pub mod Handlers
pub mod Header
pub mod Delivery
pub mod Logon
pub mod Handshake
pub mod ResetLogon
use real_time_market_data_fe.Base.{
  ℕ, zero, suc, ◌+◌, ◌-◌, ◌*◌, ◌/◌, ◌%◌, ◌^◌, ◌<◌, ◌≤◌, ◌≡◌, ◌≢◌, ◌∙◌, refl, sym, ap, subst, ◌==◌,
  ltb, leb, ◌&&◌, ◌||◌, if◌then◌else◌, Option-cases, Bool, true, false, Bool-cases, ◌⊎◌, inl, inr,
  Option, none, some, List, [], ◌∷◌, ◌++◌, append-nil, append_assoc, arith, All, length,
  length-append, take, drop, min, max, flatten, map,
}
use real_time_market_data_fe.Protocol.Fix.Text.{codes}
use real_time_market_data_fe.Protocol.Fix.Decimal.{to_string}
use real_time_market_data_fe.Protocol.Fix.Message.{
  FixMessage, set_tag, set_tag_char, set_tag_int, serialize,
}
use real_time_market_data_fe.Protocol.Fix.Tag
use real_time_market_data_fe.Protocol.Fix.MsgType
use real_time_market_data_fe.Base.Words.{add32}

pub data SessionState : Type 0 where
  disconnected : SessionState
  logon_sent : SessionState
  active : SessionState
  logout_sent : SessionState

-- The states' numbers.
abbrev pub code_of : SessionState → ℕ
code_of disconnected = 0
code_of logon_sent = 1
code_of active = 2
code_of logout_sent = 3

pub record FixSession : Type 0 where
  pub sender_comp_id : List ℕ
  pub target_comp_id : List ℕ
  pub heartbeat_interval_sec : ℕ
  pub state : SessionState
  pub outbound_seq : ℕ
  pub inbound_seq : ℕ
  pub last_send_time : ℕ
  pub last_recv_time : ℕ
  pub test_request_sent_time : ℕ
  pub pending_test_req_id : List ℕ
  pub reads : ℕ
  pub sent : List (List ℕ)
  pub delivered : List FixMessage
  pub changes : List (SessionState × SessionState)

-- The constructor, at time `now`.
abbrev pub new_session : List ℕ → List ℕ → ℕ → ℕ → FixSession
new_session sender target interval now = record {
  sender_comp_id = sender;
  target_comp_id = target;
  heartbeat_interval_sec = interval;
  state = disconnected;
  outbound_seq = 1;
  inbound_seq = 1;
  last_send_time = now;
  last_recv_time = now;
  test_request_sent_time = 0;
  pending_test_req_id = [];
  reads = 0;
  sent = [];
  delivered = [];
  changes = [];
}

abbrev pub text_yes : List ℕ
text_yes = codes "Y"

unfoldable pub set_comp_ids : List ℕ → List ℕ → FixSession → FixSession
set_comp_ids sender target s = record s { sender_comp_id = sender; target_comp_id = target }

unfoldable pub set_heartbeat_interval : ℕ → FixSession → FixSession
set_heartbeat_interval seconds s = record s { heartbeat_interval_sec = seconds }

unfoldable pub transition : SessionState → FixSession → FixSession
transition target s =
    if code_of s.state == code_of target
    then s
    else record s { state = target; changes = s.changes ++ ((s.state, target) ∷ []) }

unfoldable pub reset : FixSession → FixSession
reset s = record s {
  state = disconnected;
  outbound_seq = 1;
  inbound_seq = 1;
  pending_test_req_id = [];
}

unfoldable pub on_disconnect : FixSession → FixSession
unfolding transition
on_disconnect s = transition disconnected s

abbrev pub of_type : ℕ → FixMessage
of_type type = set_tag_char Tag.msg_type type []

-- A field that is set when its text is not empty.
abbrev pub set_if_given : ℕ → List ℕ → FixMessage → FixMessage
set_if_given tag [] m = m
set_if_given tag (c ∷ text) m = set_tag tag (c ∷ text) m

abbrev pub is_empty : List ℕ → Bool
is_empty [] = true
is_empty (c ∷ s) = false

-- A field that is set when the other message had it.
abbrev pub set_if_some : ℕ → Option (List ℕ) → FixMessage → FixMessage
set_if_some tag none m = m
set_if_some tag (some text) m = set_tag tag text m

-- `now - last >= interval + extra`, where the interval is an `int` of seconds.
abbrev pub has_passed : ℕ → ℕ → ℕ → ℕ → Bool
has_passed now last interval extra =
    if ltb interval (2 ^ 31)
    then leb (last + (interval + extra) * 10 ^ 9) now
    else leb (last + extra * 10 ^ 9) (now + (2 ^ 32 - interval) * 10 ^ 9)

module _ (steady now_ns : ℕ → ℕ) (sending_time : ℕ → List ℕ) where
  -- The message with the header fields that `send_message_locked` stamps on it.
  unfoldable pub stamped : FixSession → FixMessage → FixMessage
  unfolding set_tag set_tag_int
  stamped s m = set_tag Tag.sending_time (sending_time s.reads) (
      set_tag_int Tag.msg_seq_num s.outbound_seq (
        set_tag Tag.target_comp_id s.target_comp_id
          (set_tag Tag.sender_comp_id s.sender_comp_id m)))

  unfoldable pub send_message : FixSession → FixMessage → FixSession
  unfolding stamped serialize
  send_message s m = record s {
    outbound_seq = add32 s.outbound_seq 1;
    last_send_time = steady (s.reads + 1);
    reads = s.reads + 2;
    sent = s.sent ++ (serialize (stamped s m) ∷ []);
  }

  unfoldable pub logon : FixSession → FixMessage
  unfolding set_tag_char set_tag_int set_tag
  logon s =
      set_tag_int Tag.heart_bt_int s.heartbeat_interval_sec
        (set_tag_int Tag.encrypt_method 0 (of_type MsgType.logon))

  unfoldable pub send_logon : Bool → FixSession → FixSession
  unfolding send_message transition logon set_tag
  send_logon true s =
      let fresh = record s { outbound_seq = 1; inbound_seq = 1 } in
      transition logon_sent
        (send_message fresh (set_tag Tag.reset_seq_num_flag text_yes (logon fresh)))
  send_logon false s = transition logon_sent (send_message s (logon s))

  unfoldable pub send_logout : List ℕ → FixSession → FixSession
  unfolding send_message transition set_tag_char set_tag
  send_logout text s =
      transition logout_sent (send_message s (set_if_given Tag.text text (of_type MsgType.logout)))

  unfoldable pub send_heartbeat : List ℕ → FixSession → FixSession
  unfolding send_message set_tag_char set_tag
  send_heartbeat id s = send_message s (set_if_given Tag.test_req_id id (of_type MsgType.heartbeat))

  unfoldable pub test_id : FixSession → List ℕ
  test_id s = codes "TR-" ++ to_string (now_ns s.reads)

  -- A test request that is sent, and awaited from then on.
  unfoldable pub request_test : FixSession → FixSession
  unfolding send_message set_tag_char set_tag test_id
  request_test s =
      let id = test_id s in
      send_message (record s { pending_test_req_id = id; reads = s.reads + 1 })
        (set_tag Tag.test_req_id id (of_type MsgType.test_request))

  unfoldable pub send_test_request : FixSession → FixSession
  unfolding request_test
  send_test_request s =
      let r = request_test s in
      record r { test_request_sent_time = steady r.reads; reads = r.reads + 1 }

  unfoldable pub send_resend_request : ℕ → ℕ → FixSession → FixSession
  unfolding send_message set_tag_char set_tag_int set_tag
  send_resend_request begin_seq end_seq s = send_message s (
      set_tag_int Tag.end_seq_no end_seq
        (set_tag_int Tag.begin_seq_no begin_seq (of_type MsgType.resend_request)))

  unfoldable pub send_sequence_reset : ℕ → Bool → FixSession → FixSession
  unfolding send_message set_tag_char set_tag_int set_tag
  send_sequence_reset new_seq gap_fill s =
      let m = set_tag_int Tag.new_seq_no new_seq (of_type MsgType.sequence_reset) in
      send_message s (if gap_fill then set_tag Tag.gap_fill_flag text_yes m else m)

  unfoldable pub send_reject : ℕ → List ℕ → ℕ → FixSession → FixSession
  unfolding send_message set_tag_char set_tag_int set_tag
  send_reject ref_seq text reason s =
      let m =
        set_if_given Tag.text text (set_tag_int Tag.ref_seq_num ref_seq (of_type MsgType.reject)) in
      send_message s
        (if ltb reason (2 ^ 31) then set_tag_int Tag.session_reject_reason reason m else m)

  unfoldable pub send_app_message : FixMessage → FixSession → FixSession
  unfolding send_message
  send_app_message m s = send_message s m
