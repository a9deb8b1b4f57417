-- ===== src/Protocol/Fix/Session/Logon.antt =====
-- The exchange that makes two sessions active.
use real_time_market_data_fe.Base.{
  ℕ, zero, suc, ◌%◌, ◌^◌, ◌<◌, ◌≡◌, ◌∙◌, refl, sym, ap, ◌==◌, true, Bool-cases, inl, inr, none,
  some, List, arith,
}
use real_time_market_data_fe.Protocol.Fix.Decimal.{int_to_string, stoll, stoll-to_string}
use real_time_market_data_fe.Protocol.Fix.Message.{
  FixMessage, get_tag, get_tag_int, msg_type, set_tag, set_tag_char, set_tag_int,
}
use real_time_market_data_fe.Protocol.Fix.Message.Fields.{int_to_string-nonneg}
use real_time_market_data_fe.Protocol.Fix.Session.{
  FixSession, SessionState, disconnected, logon_sent, active, logout_sent, code_of, transition,
  logon,
}
use real_time_market_data_fe.Protocol.Fix.Session.Handlers.{
  on_message_received, dispatch, handle_logon, answer_logon, accept_interval, is_positive,
}
use real_time_market_data_fe.Protocol.Fix.Session.Header.{
  on_wire, get_tag-on_wire, get_tag_int-get_tag,
}
use real_time_market_data_fe.Protocol.Fix.Session.Delivery.{
  Follows, expecting, on_message_received-on_wire,
}
use real_time_market_data_fe.Protocol.Fix.Tag
use real_time_market_data_fe.Protocol.Fix.MsgType

abbrev state_of : ℕ → SessionState
state_of zero = disconnected
state_of (suc zero) = logon_sent
state_of (suc (suc zero)) = active
state_of (suc (suc (suc n))) = logout_sent

state_of-code_of : (s : SessionState) → state_of (code_of s) ≡ s
state_of-code_of disconnected = refl
state_of-code_of logon_sent = refl
state_of-code_of active = refl
state_of-code_of logout_sent = refl

pub transition-state : (t : SessionState) (s : FixSession) → (transition t s).state ≡ t
unfolding transition
transition-state t s = elim (Bool-cases (code_of s.state == code_of t)) [
  | inl y ↦
      rw (y, transition)
        (sym (state_of-code_of s.state) ∙ ap state_of (ground (arith, y)) ∙ state_of-code_of t)
  | inr n ↦ rw (n, transition) refl
]

-- A transition writes the state and the log of changes only.
pub Follows-transition_right :
    (u : SessionState) (a b : FixSession) → Follows a b → Follows a (transition u b)
unfolding transition
Follows-transition_right u a b f = elim (Bool-cases (code_of b.state == code_of u)) [
  | inl y ↦ rw (y, transition) f
  | inr n ↦ rw (n, transition) (record { from = f.from; to = f.to; expected = f.expected })
]

pub Follows-transition_left :
    (t : SessionState) (a b : FixSession) → Follows a b → Follows (transition t a) b
unfolding transition
Follows-transition_left t a b f = elim (Bool-cases (code_of a.state == code_of t)) [
  | inl y ↦ rw (y, transition) f
  | inr n ↦ rw (n, transition) (record { from = f.from; to = f.to; expected = f.expected })
]

positive : (i : ℕ) → 0 < i → i < 2 ^ 31 → is_positive i ≡ true
positive i pos small = ground arith

accept_interval-some :
    (i : ℕ) (s : FixSession)
    → 0 < i
    → i < 2 ^ 31
    → accept_interval (some i) s ≡ record s { heartbeat_interval_sec = i }
accept_interval-some i s pos small =
    let same_value : i % 2 ^ 32 ≡ i = omega arith in
    rw (positive i pos small) (ap (λ n. record s { heartbeat_interval_sec = n }) same_value)

module _ (steady now_ns : ℕ → ℕ) (sending_time : ℕ → List ℕ) where
  logon-interval :
      (s : FixSession)
      → s.heartbeat_interval_sec < 2 ^ 31
      → get_tag_int Tag.heart_bt_int
          (on_wire steady now_ns sending_time s (logon steady now_ns sending_time s))
        ≡ some s.heartbeat_interval_sec
  unfolding logon get_tag set_tag_char set_tag_int set_tag
  logon-interval s h =
      get_tag_int-get_tag Tag.heart_bt_int _ (int_to_string s.heartbeat_interval_sec) (
        get_tag-on_wire steady now_ns sending_time s (logon steady now_ns sending_time s)
          Tag.heart_bt_int refl refl)
      ∙ ap stoll (int_to_string-nonneg s.heartbeat_interval_sec h)
      ∙ stoll-to_string s.heartbeat_interval_sec (omega (arith, h))

  logon-no_reset :
      (s : FixSession)
      → get_tag Tag.reset_seq_num_flag
          (on_wire steady now_ns sending_time s (logon steady now_ns sending_time s))
        ≡ none
  unfolding logon get_tag set_tag_char set_tag_int set_tag
  logon-no_reset s =
      get_tag-on_wire steady now_ns sending_time s (logon steady now_ns sending_time s)
        Tag.reset_seq_num_flag refl refl

  pub logon-type : (s : FixSession) → msg_type (logon steady now_ns sending_time s) ≡ MsgType.logon
  unfolding logon get_tag set_tag_char set_tag_int set_tag msg_type
  logon-type s = refl

  handle_logon-no_reset :
      (m : FixMessage) (s : FixSession)
      → get_tag Tag.reset_seq_num_flag m ≡ none
      → handle_logon steady now_ns sending_time m s
        ≡ answer_logon steady now_ns sending_time
            (accept_interval (get_tag_int Tag.heart_bt_int m) s)
            (accept_interval (get_tag_int Tag.heart_bt_int m) s).state
  unfolding handle_logon
  handle_logon-no_reset m s n = rw (n, handle_logon) refl

  handle_logon-answer :
      (m : FixMessage) (s : FixSession) (i : ℕ)
      → get_tag_int Tag.heart_bt_int m ≡ some i
      → 0 < i
      → i < 2 ^ 31
      → get_tag Tag.reset_seq_num_flag m ≡ none
      → handle_logon steady now_ns sending_time m s
        ≡ answer_logon steady now_ns sending_time (record s { heartbeat_interval_sec = i }) s.state
  handle_logon-answer m s i e pos small n =
      handle_logon-no_reset m s n
      ∙ ap (λ x. answer_logon steady now_ns sending_time x x.state)
          (ap (λ o. accept_interval o s) e ∙ accept_interval-some i s pos small)

  dispatch-logon :
      (m : FixMessage) (s : FixSession)
      → dispatch steady now_ns sending_time MsgType.logon m s
        ≡ handle_logon steady now_ns sending_time m s
  unfolding dispatch
  dispatch-logon m s = refl

module _ (steady now_ns : ℕ → ℕ) (sending_time : ℕ → List ℕ) (steady_b now_ns_b : ℕ → ℕ)
    (sending_time_b : ℕ → List ℕ) where
  -- The session that has accepted a logon of `a`, before it answers.
  abbrev pub greeted : FixSession → FixSession → FixSession
  greeted a b = record (expecting steady_b now_ns_b sending_time_b a.outbound_seq b) {
    heartbeat_interval_sec = a.heartbeat_interval_sec;
  }

  -- A logon of `a` that `b` receives in turn.
  pub receive_logon :
      (a b : FixSession)
      → Follows a b
      → a.outbound_seq < 2 ^ 31
      → 0 < a.heartbeat_interval_sec
      → a.heartbeat_interval_sec < 2 ^ 31
      → on_message_received steady_b now_ns_b sending_time_b
          (on_wire steady now_ns sending_time a (logon steady now_ns sending_time a))
          b
        ≡ answer_logon steady_b now_ns_b sending_time_b (greeted a b) b.state
  receive_logon a b f room pos small =
      let m = logon steady now_ns sending_time a in
      let w = on_wire steady now_ns sending_time a m in
      let e = expecting steady_b now_ns_b sending_time_b a.outbound_seq b in
      let type = logon-type steady now_ns sending_time a in
      on_message_received-on_wire steady now_ns sending_time steady_b now_ns_b sending_time_b a b m
        f room (ap (λ t. t == MsgType.sequence_reset) type)
      ∙ ap (λ t. dispatch steady_b now_ns_b sending_time_b t w e) type
      ∙ dispatch-logon steady_b now_ns_b sending_time_b w e
      ∙ handle_logon-answer steady_b now_ns_b sending_time_b w e a.heartbeat_interval_sec
          (logon-interval steady now_ns sending_time a small) pos small
          (logon-no_reset steady now_ns sending_time a)
