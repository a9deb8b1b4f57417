-- ===== src/Protocol/Fix/Session/Header.antt =====
-- What a receiver reads of the header that a session stamps on its messages.
use real_time_market_data_fe.Base.{
  ℕ, ◌^◌, ◌<◌, ◌≡◌, ◌∙◌, refl, ap, ◌==◌, ◌||◌, if◌then◌else◌, Bool, false, some, List, [], ◌∷◌,
  arith,
}
use real_time_market_data_fe.Protocol.Fix.Decimal.{int_to_string, stoll, stoll-to_string}
use real_time_market_data_fe.Protocol.Fix.Message.{
  FixMessage, set_tag, set_tag_int, get_tag, get_tag_int, msg_type, msg_seq_num, is_managed,
  front_or_zero, low32_or_zero,
}
use real_time_market_data_fe.Protocol.Fix.Message.Fields.{int_to_string-nonneg}
use real_time_market_data_fe.Protocol.Fix.Message.RoundTrip.{enveloped}
use real_time_market_data_fe.Protocol.Fix.Message.Checks.{get_tag-enveloped}
use real_time_market_data_fe.Protocol.Fix.Session.{FixSession, stamped}
use real_time_market_data_fe.Protocol.Fix.Tag

-- A set tag reads as its value, and every other one as before.
pub get_tag-set_tag :
    (t k : ℕ) (v : List ℕ) (m : FixMessage)
    → get_tag t (set_tag k v m) ≡ (if k == t then some v else get_tag t m)
unfolding get_tag set_tag
get_tag-set_tag t k v [] = refl
get_tag-set_tag t k v (f ∷ fs) = ground (arith, get_tag-set_tag t k v fs)

-- The tags that a session stamps.
abbrev pub is_stamped : ℕ → Bool
is_stamped t =
    t == Tag.sender_comp_id
    || t == Tag.target_comp_id
    || t == Tag.msg_seq_num
    || t == Tag.sending_time

pub get_tag_int-get_tag :
    (t : ℕ) (m : FixMessage) (v : List ℕ) → get_tag t m ≡ some v → get_tag_int t m ≡ stoll v
unfolding get_tag_int
get_tag_int-get_tag t m v e = rw (e, get_tag_int) refl

msg_seq_num-get_tag :
    (m : FixMessage) (n : ℕ)
    → get_tag Tag.msg_seq_num m ≡ some (int_to_string n)
    → n < 2 ^ 31
    → msg_seq_num m ≡ n
unfolding msg_seq_num
msg_seq_num-get_tag m n e h =
    ap low32_or_zero (
      get_tag_int-get_tag Tag.msg_seq_num m (int_to_string n) e
      ∙ ap stoll (int_to_string-nonneg n h)
      ∙ stoll-to_string n (omega (arith, h)))
    ∙ omega arith

module _ (steady now_ns : ℕ → ℕ) (sending_time : ℕ → List ℕ) (s : FixSession) (m : FixMessage) where
  -- The stamped message as it reads on the wire.
  abbrev pub on_wire : FixMessage
  on_wire = enveloped (stamped steady now_ns sending_time s m)

  get_tag-stamped :
      (t : ℕ)
      → get_tag t (stamped steady now_ns sending_time s m) ≡ (
          if Tag.sending_time == t
          then some (sending_time s.reads)
          else if Tag.msg_seq_num == t
          then some (int_to_string s.outbound_seq)
          else if Tag.target_comp_id == t
          then some s.target_comp_id
          else if Tag.sender_comp_id == t
          then some s.sender_comp_id
          else get_tag t m)
  unfolding stamped set_tag_int
  get_tag-stamped t =
      let m1 = set_tag Tag.sender_comp_id s.sender_comp_id m in
      let m2 = set_tag Tag.target_comp_id s.target_comp_id m1 in
      let m3 = set_tag Tag.msg_seq_num (int_to_string s.outbound_seq) m2 in
      rw (get_tag-set_tag t Tag.sending_time (sending_time s.reads) m3) (
        rw (get_tag-set_tag t Tag.msg_seq_num (int_to_string s.outbound_seq) m2) (
          rw (get_tag-set_tag t Tag.target_comp_id s.target_comp_id m1)
            (rw (get_tag-set_tag t Tag.sender_comp_id s.sender_comp_id m) refl)))

  unstamped :
      (t : ℕ)
      → is_stamped t ≡ false
      → (if Tag.sending_time == t
          then some (sending_time s.reads)
          else if Tag.msg_seq_num == t
          then some (int_to_string s.outbound_seq)
          else if Tag.target_comp_id == t
          then some s.target_comp_id
          else if Tag.sender_comp_id == t
          then some s.sender_comp_id
          else get_tag t m)
        ≡ get_tag t m
  unstamped t k = ground (arith, k)

  pub get_tag-on_wire :
      (t : ℕ) → is_managed t ≡ false → is_stamped t ≡ false → get_tag t on_wire ≡ get_tag t m
  get_tag-on_wire t h k =
      get_tag-enveloped t (stamped steady now_ns sending_time s m) h
      ∙ get_tag-stamped t
      ∙ unstamped t k

  pub sender-on_wire : get_tag Tag.sender_comp_id on_wire ≡ some s.sender_comp_id
  sender-on_wire =
      get_tag-enveloped Tag.sender_comp_id (stamped steady now_ns sending_time s m) refl
      ∙ get_tag-stamped Tag.sender_comp_id

  pub target-on_wire : get_tag Tag.target_comp_id on_wire ≡ some s.target_comp_id
  target-on_wire =
      get_tag-enveloped Tag.target_comp_id (stamped steady now_ns sending_time s m) refl
      ∙ get_tag-stamped Tag.target_comp_id

  pub msg_type-on_wire : msg_type on_wire ≡ msg_type m
  unfolding msg_type
  msg_type-on_wire = ap front_or_zero (get_tag-on_wire Tag.msg_type refl refl)

  pub msg_seq_num-on_wire : s.outbound_seq < 2 ^ 31 → msg_seq_num on_wire ≡ s.outbound_seq
  msg_seq_num-on_wire h =
      msg_seq_num-get_tag on_wire s.outbound_seq
        (get_tag-enveloped Tag.msg_seq_num (stamped steady now_ns sending_time s m) refl
          ∙ get_tag-stamped Tag.msg_seq_num)
        h
