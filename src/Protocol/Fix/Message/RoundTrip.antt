-- ===== src/Protocol/Fix/Message/RoundTrip.antt =====
-- What `parse` reads of a serialized message, and that the checks accept it.
use real_time_market_data_fe.Base.{
  ℕ, ◌≡◌, ◌∙◌, refl, sym, ap, ◌==◌, Bool, true, false, Bool-cases, inl, inr, some, List, [], ◌∷◌,
  ◌++◌, append-nil, append_assoc, arith, All, length, ◌||◌,
}
use real_time_market_data_fe.Protocol.Fix.Text.{Lacks}
use real_time_market_data_fe.Protocol.Fix.Decimal.{to_string, to_string-AllDigits}
use real_time_market_data_fe.Protocol.Fix.Message.{
  Field, FixMessage, serialize, parse, body, pre_checksum, is_managed, field_text, soh,
  checksum_text, fix_begin_string, get_tag,
}
use real_time_market_data_fe.Protocol.Fix.Message.Fields.{
  without, fields_text, IsField, append_unless-fields_text, AllDigits-Lacks, parse-fields_text,
}
use real_time_market_data_fe.Protocol.Fix.Tag

abbrev pub kept : FixMessage → FixMessage
kept = without (λ t. t == 8 || t == 9 || t == 10)

-- The header of a body of this text.
abbrev pub header : List ℕ → FixMessage
header b = (Tag.begin_string, fix_begin_string) ∷ (Tag.body_length, to_string (length b)) ∷ []

-- The fields of the message on the wire: the caller's between a header and a trailer.
abbrev pub enveloped : FixMessage → FixMessage
enveloped m =
    header (body m) ++ (kept m ++ ((Tag.check_sum, checksum_text (pre_checksum (body m))) ∷ []))

pub fields_text-append : (m n : FixMessage) → fields_text (m ++ n) ≡ fields_text m ++ fields_text n
fields_text-append [] n = refl
fields_text-append (f ∷ m) n =
    ap (λ t. field_text f ++ t) (fields_text-append m n)
    ∙ sym (append_assoc (field_text f) (fields_text m) (fields_text n))

pub body-fields_text : (m : FixMessage) → body m ≡ fields_text (kept m)
unfolding body
body-fields_text m = append_unless-fields_text is_managed [] m

pub pre_checksum-fields_text :
    (m : FixMessage) → pre_checksum (body m) ≡ fields_text (header (body m) ++ kept m)
unfolding pre_checksum
pre_checksum-fields_text m =
    append_assoc (field_text (Tag.begin_string, fix_begin_string))
      (field_text (Tag.body_length, to_string (length (body m)))) (body m)
    ∙ ap
        (λ t.
          field_text (Tag.begin_string, fix_begin_string)
          ++ (field_text (Tag.body_length, to_string (length (body m))) ++ t))
        (body-fields_text m)

pub serialize-fields_text : (m : FixMessage) → serialize m ≡ fields_text (enveloped m)
unfolding serialize
serialize-fields_text m =
    let sum : Field = (Tag.check_sum, checksum_text (pre_checksum (body m))) in
    ap (λ t. t ++ field_text sum) (pre_checksum-fields_text m)
    ∙ ap (λ t. fields_text (header (body m) ++ kept m) ++ t) (sym (append-nil (field_text sum)))
    ∙ sym (fields_text-append (header (body m) ++ kept m) (sum ∷ []))

without-IsField : (skip : ℕ → Bool) (m : FixMessage) → All IsField m → All IsField (without skip m)
without-IsField skip [] h = tt
without-IsField skip (f ∷ fs) h = elim (Bool-cases (skip f.0)) [
  | inl y ↦ rw y (without-IsField skip fs h.1)
  | inr n ↦ rw n (h.0, without-IsField skip fs h.1)
]

IsField-snoc :
    (m : FixMessage) (f : Field) → All IsField m → IsField f → All IsField (m ++ (f ∷ []))
IsField-snoc [] f h k = (k, tt)
IsField-snoc (g ∷ m) f h k = (h.0, IsField-snoc m f h.1 k)

checksum_text-Lacks : (s : List ℕ) → Lacks soh (checksum_text s)
unfolding checksum_text
checksum_text-Lacks s = (omega arith, (omega arith, (omega arith, tt)))

enveloped-IsField : (m : FixMessage) → All IsField m → All IsField (enveloped m)
enveloped-IsField m h =
    let len : List ℕ = to_string (length (body m)) in
    let sum : List ℕ = checksum_text (pre_checksum (body m)) in
    (
      (omega arith, ground arith),
      (
        (
          omega arith,
          AllDigits-Lacks soh len (inl (omega arith)) (to_string-AllDigits (length (body m))),
        ),
        IsField-snoc (kept m) (Tag.check_sum, sum) (without-IsField is_managed m h)
            (omega arith, checksum_text-Lacks (pre_checksum (body m))),
      ),
    )

pub parse-serialize_lem :
    (m : FixMessage) → All IsField m → parse (serialize m) ≡ some (enveloped m)
parse-serialize_lem m h =
    ap parse (serialize-fields_text m)
    ∙ parse-fields_text (Tag.begin_string, fix_begin_string)
        ((Tag.body_length, to_string (length (body m)))
          ∷ (kept m ++ ((Tag.check_sum, checksum_text (pre_checksum (body m))) ∷ [])))
        (enveloped-IsField m h)

pub without-append :
    (skip : ℕ → Bool) (m n : FixMessage) → without skip (m ++ n) ≡ without skip m ++ without skip n
without-append skip [] n = refl
without-append skip (f ∷ m) n = elim (Bool-cases (skip f.0)) [
  | inl y ↦ rw y (without-append skip m n)
  | inr n' ↦ rw n' (ap (λ t. f ∷ t) (without-append skip m n))
]

differs : (t tag : ℕ) → is_managed t ≡ false → is_managed tag ≡ true → (t == tag) ≡ false
differs t tag n h = ground (arith, n, h)

-- A managed tag is not among the caller's fields.
pub without-kept :
    (tag : ℕ) (m : FixMessage) → is_managed tag ≡ true → without (λ t. t == tag) (kept m) ≡ kept m
without-kept tag [] h = refl
without-kept tag (f ∷ fs) h = elim (Bool-cases (is_managed f.0)) [
  | inl y ↦ rw y (without-kept tag fs h)
  | inr n ↦ rw n (rw (differs f.0 tag n h) (ap (λ t. f ∷ t) (without-kept tag fs h)))
]

pub get_tag-kept :
    (tag : ℕ) (m : FixMessage) (v : List ℕ)
    → is_managed tag ≡ true
    → get_tag tag (kept m ++ ((tag, v) ∷ [])) ≡ some v
unfolding get_tag
get_tag-kept tag [] v h = ground arith
get_tag-kept tag (f ∷ fs) v h = elim (Bool-cases (is_managed f.0)) [
  | inl y ↦ rw y (get_tag-kept tag fs v h)
  | inr n ↦ rw n (ground (arith, differs f.0 tag n h, get_tag-kept tag fs v h))
]
