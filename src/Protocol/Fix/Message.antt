-- ===== src/Protocol/Fix/Message.antt =====
-- `FixMessage` of `include/qf/protocol/fix/fix_message.hpp`: the list of fields that is its only
-- member, the builder, the accessors, the serializer, the parser, the checks on a received message
-- and the framing helper. An `int` and an `int64_t` are their two's complement patterns.
pub mod Framing
pub mod Fields
pub mod RoundTrip
pub mod Checks
use real_time_market_data_fe.Base.{
  ℕ, zero, suc, List, ◌∷◌, Option, Bool, if◌then◌else◌, ◌==◌, [], none, false, ◌++◌, ◌+◌, ◌%◌, some,
  ◌&&◌, ltb, ◌||◌, ◌^◌, ◌/◌, length, ◌-◌,
}
use real_time_market_data_fe.Protocol.Fix.Text.{codes, same, find, find_text, strip_prefix}
use real_time_market_data_fe.Protocol.Fix.Decimal.{to_string, int_to_string, stoi, stoll}
use real_time_market_data_fe.Protocol.Fix.Tag

abbrev pub Field : Type 0
Field = ℕ × List ℕ

abbrev pub FixMessage : Type 0
FixMessage = List Field

abbrev pub soh : ℕ
soh = 1

abbrev pub fix_begin_string : List ℕ
fix_begin_string = codes "FIX.4.4"

unfoldable pub set_tag : ℕ → List ℕ → FixMessage → FixMessage
set_tag tag value [] = (tag, value) ∷ []
set_tag tag value (f ∷ fs) =
    let rest = set_tag tag value fs in if f.0 == tag then (tag, value) ∷ fs else f ∷ rest

-- A `char` value.
unfoldable pub set_tag_char : ℕ → ℕ → FixMessage → FixMessage
set_tag_char tag value m = set_tag tag (value ∷ []) m

unfoldable pub set_tag_int : ℕ → ℕ → FixMessage → FixMessage
set_tag_int tag value m = set_tag tag (int_to_string value) m

unfoldable pub set_tag_uint : ℕ → ℕ → FixMessage → FixMessage
set_tag_uint tag value m = set_tag tag (to_string value) m

unfoldable pub get_tag : ℕ → FixMessage → Option (List ℕ)
get_tag tag [] = none
get_tag tag (f ∷ fs) = let rest = get_tag tag fs in if f.0 == tag then some f.1 else rest

unfoldable pub has_tag : ℕ → FixMessage → Bool
has_tag tag [] = false
has_tag tag (f ∷ fs) = f.0 == tag || has_tag tag fs

-- A value that `stoll` refuses is as if it were missing.
unfoldable pub get_tag_int : ℕ → FixMessage → Option ℕ
unfolding get_tag
get_tag_int tag m = elim (get_tag tag m) [ none ↦ none | some v ↦ stoll v ]

abbrev pub front : List ℕ → ℕ
front [] = 0
front (c ∷ s) = c

abbrev pub front_or_zero : Option (List ℕ) → ℕ
front_or_zero none = 0
front_or_zero (some s) = front s

unfoldable pub msg_type : FixMessage → ℕ
unfolding get_tag
msg_type m = front_or_zero (get_tag Tag.msg_type m)

abbrev pub low32_or_zero : Option ℕ → ℕ
low32_or_zero none = 0
low32_or_zero (some n) = n % 2 ^ 32

unfoldable pub msg_seq_num : FixMessage → ℕ
unfolding get_tag_int
msg_seq_num m = low32_or_zero (get_tag_int Tag.msg_seq_num m)

unfoldable pub remove_tag : ℕ → FixMessage → FixMessage
remove_tag tag [] = []
remove_tag tag (f ∷ fs) = if f.0 == tag then remove_tag tag fs else f ∷ remove_tag tag fs

abbrev pub field_text : Field → List ℕ
field_text f = int_to_string f.0 ++ (b'=' ∷ (f.1 ++ (soh ∷ [])))

abbrev pub append_field : List ℕ → Field → List ℕ
append_field out f = out ++ field_text f

-- The loop that appends every field whose tag it does not skip.
unfoldable pub append_unless : (ℕ → Bool) → List ℕ → FixMessage → List ℕ
append_unless skip out [] = out
append_unless skip out (f ∷ fs) =
    append_unless skip (if skip f.0 then out else append_field out f) fs

-- The tags that `serialize` writes itself.
abbrev pub is_managed : ℕ → Bool
is_managed tag = tag == Tag.begin_string || tag == Tag.body_length || tag == Tag.check_sum

-- `cksum += c` over the bytes, on 32 bits.
unfoldable pub byte_sum : ℕ → List ℕ → ℕ
byte_sum acc [] = acc
byte_sum acc (c ∷ s) = byte_sum ((acc + c) % 2 ^ 32) s

-- `"%03u"` of a number below 1000.
abbrev pub three_digits : ℕ → List ℕ
three_digits n = (48 + n / 100) ∷ (48 + n / 10 % 10) ∷ (48 + n % 10) ∷ []

unfoldable pub checksum_text : List ℕ → List ℕ
unfolding byte_sum
checksum_text s = three_digits (byte_sum 0 s % 256)

unfoldable pub body : FixMessage → List ℕ
unfolding append_unless
body m = append_unless is_managed [] m

-- The header in front of a body, and the body.
unfoldable pub pre_checksum : List ℕ → List ℕ
pre_checksum b =
    append_field (append_field [] (Tag.begin_string, fix_begin_string))
      (Tag.body_length, to_string (length b))
    ++ b

unfoldable pub serialize : FixMessage → List ℕ
unfolding body pre_checksum checksum_text
serialize m = let pre = pre_checksum (body m) in append_field pre (Tag.check_sum, checksum_text pre)

-- The value up to the next delimiter, or to the end of the input.
unfoldable pub value_and_rest : List ℕ → List ℕ × List ℕ
unfolding find
value_and_rest s = elim (find soh s) [ none ↦ (s, []) | some h ↦ h ]

abbrev pub push_field : Option ℕ → List ℕ → Option FixMessage → Option FixMessage
push_field none value rest = none
push_field (some tag) value none = none
push_field (some tag) value (some fs) = some ((tag, value) ∷ fs)

-- The parser's loop on the input behind `pos`; nothing is where it returns early.
unfoldable pub parse_fields : ℕ → List ℕ → Option FixMessage
unfolding value_and_rest
parse_fields zero s = some []
parse_fields (suc fuel) s = elim (find b'=' s) [
  | none ↦ some []
  | some h ↦ let v = value_and_rest h.1 in push_field (stoi h.0) v.0 (parse_fields fuel v.1)
]

abbrev pub refuse_empty : Option FixMessage → Option FixMessage
refuse_empty none = none
refuse_empty (some []) = none
refuse_empty (some (f ∷ fs)) = some (f ∷ fs)

unfoldable pub parse : List ℕ → Option FixMessage
unfolding parse_fields
parse [] = none
parse (c ∷ s) = refuse_empty (parse_fields (length (c ∷ s)) (c ∷ s))

unfoldable pub validate_checksum : FixMessage → Bool
unfolding get_tag append_unless checksum_text same
validate_checksum m = elim (get_tag Tag.check_sum m) [
  | none ↦ false
  | some declared ↦ same declared (checksum_text (append_unless (λ t. t == Tag.check_sum) [] m))
]

unfoldable pub validate_body_length : FixMessage → Bool
unfolding get_tag_int body
validate_body_length m = elim (get_tag_int Tag.body_length m) [
  | none ↦ false
  | some declared ↦ length (body m) == declared
]

unfoldable pub is_valid : FixMessage → Bool
unfolding has_tag
is_valid m =
    has_tag Tag.begin_string m
    && has_tag Tag.body_length m
    && has_tag Tag.msg_type m
    && has_tag Tag.sender_comp_id m
    && has_tag Tag.target_comp_id m
    && has_tag Tag.msg_seq_num m
    && has_tag Tag.sending_time m
    && has_tag Tag.check_sum m

-- An `int` as a `size_t`: the sign is extended.
abbrev pub sign_extend : ℕ → ℕ
sign_extend n = if ltb n (2 ^ 31) then n else n + (2 ^ 64 - 2 ^ 32)

-- The message's end, from where the body starts and the length it declares.
abbrev pub checksum_end : ℕ → Option ℕ → ℕ → ℕ
checksum_end start none len = 0
checksum_end start (some n) len =
    let last = (start + sign_extend n + 7) % 2 ^ 64 in if ltb len last then 0 else last

-- Of `head`, what stands in front of `SOH "9="`, and what stands behind it.
unfoldable pub declared_end : List ℕ → List ℕ → ℕ → ℕ
unfolding find
declared_end head behind len = elim (find soh behind) [
  | none ↦ 0
  | some h ↦ checksum_end (length head + 3 + length h.0 + 1) (stoi h.0) len
]

unfoldable pub extract_message_length : List ℕ → ℕ
unfolding strip_prefix find_text declared_end
extract_message_length s = elim (strip_prefix (codes "8=") s) [
  | none ↦ 0
  | some behind ↦ elim (find_text (soh ∷ codes "9=") s) [
    | none ↦ 0
    | some h ↦ declared_end h.0 h.1 (length s)
  ]
]
