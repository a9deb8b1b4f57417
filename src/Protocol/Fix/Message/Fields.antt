-- ===== src/Protocol/Fix/Message/Fields.antt =====
-- What `parse` reads of a text made of fields.
use real_time_market_data_fe.Base.{
  ℕ, zero, suc, ◌+◌, ◌^◌, ◌<◌, ◌≤◌, ◌≡◌, ◌∙◌, refl, sym, ap, subst, if◌then◌else◌, Bool, Bool-cases,
  ◌⊎◌, inl, inr, some, List, [], ◌∷◌, ◌++◌, append-nil, append_assoc, arith, All, length,
  length-append,
}
use real_time_market_data_fe.Protocol.Fix.Text.{find, find-append, Lacks}
use real_time_market_data_fe.Protocol.Fix.Decimal.{
  to_string, int_to_string, stoi, stoi-to_string, AllDigits, to_string-AllDigits,
}
use real_time_market_data_fe.Protocol.Fix.Message.{
  Field, FixMessage, parse, parse_fields, append_unless, field_text, soh, append_field, push_field,
  refuse_empty, value_and_rest, ℕ, List, length, Bool, ◌∷◌, suc, if◌then◌else◌, ◌++◌, push_field,
}

-- The fields that `skip` keeps.
abbrev pub without : (ℕ → Bool) → FixMessage → FixMessage
without skip [] = []
without skip (f ∷ fs) = if skip f.0 then without skip fs else f ∷ without skip fs

abbrev pub fields_text : FixMessage → List ℕ
fields_text [] = []
fields_text (f ∷ fs) = field_text f ++ fields_text fs

-- A field that the wire format can carry: an `int` tag that is not negative, and a value without
-- the delimiter.
abbrev pub IsField : Field → Type 0
IsField f = (f.0 < 2 ^ 31) × Lacks soh f.1

pub append_unless-fields_text :
    (skip : ℕ → Bool) (out : List ℕ) (m : FixMessage)
    → append_unless skip out m ≡ out ++ fields_text (without skip m)
unfolding append_unless
append_unless-fields_text skip out [] = sym (append-nil out)
append_unless-fields_text skip out (f ∷ fs) = elim (Bool-cases (skip f.0)) [
  | inl y ↦ rw y (append_unless-fields_text skip out fs)
  | inr n ↦ rw n (
      append_unless-fields_text skip (append_field out f) fs
      ∙ append_assoc out (field_text f) (fields_text (without skip fs)))
]

pub AllDigits-Lacks : (c : ℕ) (s : List ℕ) → c < 48 ⊎ 57 < c → AllDigits s → Lacks c s
AllDigits-Lacks c [] off h = tt
AllDigits-Lacks c (d ∷ s) off h = (ground (arith, h.0, off), AllDigits-Lacks c s off h.1)

pub int_to_string-nonneg : (n : ℕ) → n < 2 ^ 31 → int_to_string n ≡ to_string n
unfolding int_to_string
int_to_string-nonneg n h = ground arith

pub int_to_string-Lacks : (c n : ℕ) → c < 48 ⊎ 57 < c → n < 2 ^ 31 → Lacks c (int_to_string n)
int_to_string-Lacks c n off h =
    subst (Lacks c) (sym (int_to_string-nonneg n h))
      (AllDigits-Lacks c (to_string n) off (to_string-AllDigits n))

pub field_text-append :
    (f : Field) (rest : List ℕ)
    → field_text f ++ rest ≡ int_to_string f.0 ++ (b'=' ∷ (f.1 ++ (soh ∷ rest)))
field_text-append f rest =
    append_assoc (int_to_string f.0) (b'=' ∷ (f.1 ++ (soh ∷ []))) rest
    ∙ ap (λ t. int_to_string f.0 ++ (b'=' ∷ t)) (append_assoc f.1 (soh ∷ []) rest)

value_and_rest-append :
    (v rest : List ℕ) → Lacks soh v → value_and_rest (v ++ (soh ∷ rest)) ≡ (v, rest)
unfolding value_and_rest
value_and_rest-append v rest h = rw (find-append soh v rest h, value_and_rest) refl

parse_fields-find :
    (fuel : ℕ) (s : List ℕ) (h : List ℕ × List ℕ)
    → find b'=' s ≡ some h
    → parse_fields (suc fuel) s
      ≡ push_field (stoi h.0) (value_and_rest h.1).0 (parse_fields fuel (value_and_rest h.1).1)
unfolding parse_fields
parse_fields-find fuel s h e = rw (e, parse_fields) refl

stoi-int_to_string : (n : ℕ) → n < 2 ^ 31 → stoi (int_to_string n) ≡ some n
stoi-int_to_string n h = rw (int_to_string-nonneg n h) (stoi-to_string n h)

-- One round of the parser's loop, on a field's text.
parse_fields-field :
    (fuel : ℕ) (f : Field) (rest : List ℕ)
    → IsField f
    → parse_fields (suc fuel) (field_text f ++ rest)
      ≡ push_field (some f.0) f.1 (parse_fields fuel rest)
parse_fields-field fuel f rest h = rw (field_text-append f rest) (
    parse_fields-find fuel (int_to_string f.0 ++ (b'=' ∷ (f.1 ++ (soh ∷ rest))))
      (int_to_string f.0, f.1 ++ (soh ∷ rest))
      (find-append b'=' (int_to_string f.0) (f.1 ++ (soh ∷ rest))
        (int_to_string-Lacks b'=' f.0 (inr (omega arith)) h.0))
    ∙ rw (value_and_rest-append f.1 rest h.1) (rw (stoi-int_to_string f.0 h.0) refl))

pub parse_fields-fields_text :
    (fuel : ℕ) (m : FixMessage)
    → All IsField m
    → length m ≤ fuel
    → parse_fields fuel (fields_text m) ≡ some m
unfolding parse_fields find
parse_fields-fields_text zero [] h e = refl
parse_fields-fields_text (suc fuel) [] h e = refl
parse_fields-fields_text zero (f ∷ fs) h e = absurd (omega arith)
parse_fields-fields_text (suc fuel) (f ∷ fs) h e =
    rw (parse_fields-field fuel f (fields_text fs) h.0)
      (ap (push_field (some f.0) f.1) (parse_fields-fields_text fuel fs h.1 (omega arith)))

length-field_text : (f : Field) (rest : List ℕ) → length rest + 2 ≤ length (field_text f ++ rest)
length-field_text f rest = rw (field_text-append f rest) (
    omega (
      arith,
      length-append (int_to_string f.0) (b'=' ∷ (f.1 ++ (soh ∷ rest))),
      length-append f.1 (soh ∷ rest),
    ))

length-fields_text : (m : FixMessage) → length m ≤ length (fields_text m)
length-fields_text [] = omega arith
length-fields_text (f ∷ fs) =
    omega (arith, length-fields_text fs, length-field_text f (fields_text fs))

parse-nonempty : (s : List ℕ) → 0 < length s → parse s ≡ refuse_empty (parse_fields (length s) s)
unfolding parse
parse-nonempty [] h = absurd (omega arith)
parse-nonempty (c ∷ s) h = refl

-- A message's text is parsed back, field by field.
pub parse-fields_text :
    (f : Field) (m : FixMessage) → All IsField (f ∷ m) → parse (fields_text (f ∷ m)) ≡ some (f ∷ m)
parse-fields_text f m h =
    parse-nonempty (fields_text (f ∷ m)) (omega (arith, length-fields_text (f ∷ m)))
    ∙ ap refuse_empty (
        parse_fields-fields_text (length (fields_text (f ∷ m))) (f ∷ m) h
          (length-fields_text (f ∷ m)))
