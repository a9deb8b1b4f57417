-- ===== src/Protocol/Fix/Message/Checks.antt =====
-- The checks on a received message, and its accessors, on a message that `serialize` wrote.
use real_time_market_data_fe.Base.{
  ℕ, ◌^◌, ◌<◌, ◌≡◌, ◌∙◌, refl, sym, ap, ◌==◌, true, false, Bool-cases, inl, inr, some, List, [],
  ◌∷◌, ◌++◌, append-nil, arith, All, length,
}
use real_time_market_data_fe.Protocol.Fix.Text.{same, same_refl}
use real_time_market_data_fe.Protocol.Fix.Decimal.{to_string, stoll, stoll-to_string}
use real_time_market_data_fe.Protocol.Fix.Message.{
  FixMessage, serialize, parse, body, pre_checksum, append_unless, is_managed, checksum_text,
  validate_checksum, validate_body_length, get_tag, get_tag_int,
}
use real_time_market_data_fe.Protocol.Fix.Message.Fields.{
  without, fields_text, IsField, append_unless-fields_text,
}
use real_time_market_data_fe.Protocol.Fix.Message.RoundTrip.{
  kept, header, enveloped, without-append, without-kept, get_tag-kept, pre_checksum-fields_text,
  body-fields_text, parse-serialize_lem,
}
use real_time_market_data_fe.Protocol.Fix.Tag

abbrev trailer : FixMessage → FixMessage
trailer m = (Tag.check_sum, checksum_text (pre_checksum (body m))) ∷ []

enveloped-without_sum :
    (m : FixMessage)
    → append_unless (λ t. t == Tag.check_sum) [] (enveloped m) ≡ pre_checksum (body m)
enveloped-without_sum m =
    append_unless-fields_text (λ t. t == Tag.check_sum) [] (enveloped m)
    ∙ ap (λ t. fields_text (header (body m) ++ t))
        (without-append (λ t. t == Tag.check_sum) (kept m) (trailer m)
          ∙ append-nil (without (λ t. t == Tag.check_sum) (kept m))
          ∙ without-kept Tag.check_sum m refl)
    ∙ sym (pre_checksum-fields_text m)

validate_checksum-get_tag :
    (m : FixMessage) (v : List ℕ)
    → get_tag Tag.check_sum m ≡ some v
    → validate_checksum m ≡ same v (checksum_text (append_unless (λ t. t == Tag.check_sum) [] m))
unfolding validate_checksum
validate_checksum-get_tag m v e = rw (e, validate_checksum) refl

validate_checksum-enveloped : (m : FixMessage) → validate_checksum (enveloped m) ≡ true
unfolding get_tag
validate_checksum-enveloped m =
    let sum : List ℕ = checksum_text (pre_checksum (body m)) in
    validate_checksum-get_tag (enveloped m) sum (get_tag-kept Tag.check_sum m sum refl)
    ∙ ap (λ t. same sum (checksum_text t)) (enveloped-without_sum m)
    ∙ same_refl sum

kept_idem : (m : FixMessage) → kept (kept m) ≡ kept m
kept_idem [] = refl
kept_idem (f ∷ fs) = elim (Bool-cases (is_managed f.0)) [
  | inl y ↦ rw y (kept_idem fs)
  | inr n ↦ rw n (rw n (ap (λ t. f ∷ t) (kept_idem fs)))
]

body-enveloped : (m : FixMessage) → body (enveloped m) ≡ body m
body-enveloped m =
    body-fields_text (enveloped m)
    ∙ ap fields_text
        (without-append is_managed (kept m) (trailer m) ∙ append-nil (kept (kept m)) ∙ kept_idem m)
    ∙ sym (body-fields_text m)

validate_body_length-get_tag :
    (m : FixMessage) (v : List ℕ) (n : ℕ)
    → get_tag Tag.body_length m ≡ some v
    → stoll v ≡ some n
    → validate_body_length m ≡ (length (body m) == n)
unfolding validate_body_length get_tag_int
validate_body_length-get_tag m v n e k = rw (e, validate_body_length) (rw k refl)

validate_body_length-enveloped :
    (m : FixMessage) → length (body m) < 2 ^ 63 → validate_body_length (enveloped m) ≡ true
unfolding get_tag
validate_body_length-enveloped m h =
    validate_body_length-get_tag (enveloped m) (to_string (length (body m))) (length (body m)) refl
      (stoll-to_string (length (body m)) h)
    ∙ rw (body-enveloped m) (ground arith)

get_tag-unmanaged :
    (tag : ℕ) (m : FixMessage) (v : List ℕ)
    → is_managed tag ≡ false
    → get_tag tag (kept m ++ ((Tag.check_sum, v) ∷ [])) ≡ get_tag tag m
unfolding get_tag
get_tag-unmanaged tag [] v h = ground (arith, h)
get_tag-unmanaged tag (f ∷ fs) v h = elim (Bool-cases (is_managed f.0)) [
  | inl y ↦ rw y (get_tag-unmanaged tag fs v h ∙ ground (arith, h, y))
  | inr n ↦ rw n (rw (get_tag-unmanaged tag fs v h) refl)
]

-- A tag that the envelope does not manage reads on the wire as it was set.
pub get_tag-enveloped :
    (tag : ℕ) (m : FixMessage) → is_managed tag ≡ false → get_tag tag (enveloped m) ≡ get_tag tag m
unfolding get_tag
get_tag-enveloped tag m h =
    ground (arith, h, get_tag-unmanaged tag m (checksum_text (pre_checksum (body m))) h)

-- A message whose tags are not negative and whose values lack the delimiter is read back from its
-- serialized bytes, field by field between the header and the trailer that `serialize` writes, and
-- passes both checks if its body's length fits an `int64_t`.
pub parse-serialize :
    (m : FixMessage)
    → All IsField m
    → length (body m) < 2 ^ 63
    → (parse (serialize m) ≡ some (enveloped m))
      × ((validate_checksum (enveloped m) ≡ true) × (validate_body_length (enveloped m) ≡ true))
parse-serialize m h fits = (
  parse-serialize_lem m h,
  (validate_checksum-enveloped m, validate_body_length-enveloped m fits),
)
