-- ===== src/Protocol/Fix/Message/Framing.antt =====
-- The framing helper, `extract_message_length`, on a stream of serialized messages.
use real_time_market_data_fe.Base.{
  ℕ, ◌+◌, ◌^◌, ◌<◌, ◌≤◌, ◌≡◌, ◌∙◌, refl, sym, ap, subst, Option-cases, ◌⊎◌, inl, inr, Option, none,
  some, List, [], ◌∷◌, ◌++◌, append-nil, append_assoc, arith, length, length-append,
}
use real_time_market_data_fe.Protocol.Fix.Text.{
  codes, find, find_text, strip_prefix, find-append, find_text-append, strip_prefix-append, Lacks,
  find_stable, find_text_stable, strip_prefix_stable,
}
use real_time_market_data_fe.Protocol.Fix.Decimal.{
  to_string, int_to_string, decimal, stoi, stoi-to_string, to_string-AllDigits,
}
use real_time_market_data_fe.Protocol.Fix.Message.{
  Field, FixMessage, serialize, body, pre_checksum, soh, field_text, checksum_text,
  extract_message_length, checksum_end, declared_end, fix_begin_string,
}
use real_time_market_data_fe.Protocol.Fix.Message.Fields.{
  fields_text, field_text-append, AllDigits-Lacks,
}
use real_time_market_data_fe.Protocol.Fix.Message.RoundTrip.{
  kept, body-fields_text, serialize-fields_text, fields_text-append,
}
use real_time_market_data_fe.Protocol.Fix.Tag

abbrev prefix : List ℕ
prefix = codes "8="

abbrev separator : List ℕ
separator = soh ∷ codes "9="

declared_end-found :
    (head behind : List ℕ) (len : ℕ) (k : List ℕ × List ℕ)
    → find soh behind ≡ some k
    → declared_end head behind len ≡ checksum_end (length head + 3 + length k.0 + 1) (stoi k.0) len
unfolding declared_end
declared_end-found head behind len k e = rw (e, declared_end) refl

extract-found :
    (s b : List ℕ) (h k : List ℕ × List ℕ)
    → strip_prefix prefix s ≡ some b
    → find_text separator s ≡ some h
    → find soh h.1 ≡ some k
    → extract_message_length s
      ≡ checksum_end (length h.0 + 3 + length k.0 + 1) (stoi k.0) (length s)
unfolding extract_message_length
extract-found s b h k e f g =
    rw (e, extract_message_length) (rw f (declared_end-found h.0 h.1 (length s) k g))

-- The searches that the helper makes, when all three succeed.
abbrev Searches : List ℕ → Type 0
Searches s =
    (b : List ℕ) × ((h : List ℕ × List ℕ) × ((k : List ℕ × List ℕ) × ((strip_prefix prefix s
            ≡ some b)
          × ((find_text separator s ≡ some h) × (find soh h.1 ≡ some k)))))

extract-Searches : (s : List ℕ) → (extract_message_length s ≡ 0) ⊎ Searches s
unfolding extract_message_length declared_end
extract-Searches s = elim (Option-cases (strip_prefix prefix s)) [
  | inl n ↦ inl (rw (n, extract_message_length) refl)
  | inr b ↦ elim (Option-cases (find_text separator s)) [
    | inl n ↦ inl (rw (b.1, extract_message_length) (rw n refl))
    | inr h ↦ elim (Option-cases (find soh (h.0).1)) [
      | inl n ↦ inl (rw (b.1, extract_message_length) (rw h.1 (rw (n, declared_end) refl)))
      | inr k ↦ inr (b.0, (h.0, (k.0, (b.1, (h.1, k.1)))))
    ]
  ]
]

checksum_end-more :
    (start : ℕ) (n : Option ℕ) (len more : ℕ)
    → 0 < checksum_end start n len
    → checksum_end start n (len + more) ≡ checksum_end start n len
checksum_end-more start none len more h = absurd (omega arith)
checksum_end-more start (some n) len more h = ground arith

checksum_end-le : (start : ℕ) (n : Option ℕ) (len : ℕ) → checksum_end start n len ≤ len
checksum_end-le start none len = omega arith
checksum_end-le start (some n) len = ground arith

-- A message that is complete stays the first one where more bytes arrive.
pub extract-append :
    (s t : List ℕ)
    → 0 < extract_message_length s
    → extract_message_length (s ++ t) ≡ extract_message_length s
extract-append s t pos = elim (extract-Searches s) [
  | inl z ↦ absurd (omega (arith, z))
  | inr (b, (h, (k, (e, (f, g))))) ↦
      let start : ℕ = length h.0 + 3 + length k.0 + 1 in
      let here = extract-found s b h k e f g in
      extract-found (s ++ t) (b ++ t) (h.0, h.1 ++ t) (k.0, k.1 ++ t)
        (strip_prefix_stable prefix s t b e) (find_text_stable soh (codes "9=") s t h f)
        (find_stable soh h.1 t k g)
      ∙ ap (checksum_end start (stoi k.0)) (length-append s t)
      ∙ checksum_end-more start (stoi k.0) (length s) (length t) (subst (λ x. 0 < x) here pos)
      ∙ sym here
]

pub extract-le_length : (s : List ℕ) → extract_message_length s ≤ length s
extract-le_length s = elim (extract-Searches s) [
  | inl z ↦ omega (arith, z)
  | inr (b, (h, (k, (e, (f, g))))) ↦ omega (
    arith,
    extract-found s b h k e f g,
    checksum_end-le (length h.0 + 3 + length k.0 + 1) (stoi k.0) (length s),
  )
]

begin_string-text :
    (rest : List ℕ)
    → field_text (Tag.begin_string, fix_begin_string) ++ rest ≡ codes "8=FIX.4.4" ++ (soh ∷ rest)
unfolding int_to_string to_string decimal
begin_string-text rest = refl

body_length-text :
    (v rest : List ℕ) → field_text (Tag.body_length, v) ++ rest ≡ codes "9=" ++ (v ++ (soh ∷ rest))
unfolding int_to_string to_string decimal
body_length-text v rest = field_text-append (Tag.body_length, v) rest

-- Where the parts of a serialized message stand.
serialize-layout :
    (m : FixMessage) (rest : List ℕ)
    → serialize m ++ rest
      ≡ codes "8=FIX.4.4"
        ++ (separator
            ++ (to_string (length (body m))
                ++ (soh
                    ∷ (body m
                        ++ (field_text (Tag.check_sum, checksum_text (pre_checksum (body m)))
                            ++ rest)))))
serialize-layout m rest =
    let sum : Field = (Tag.check_sum, checksum_text (pre_checksum (body m))) in
    let len : List ℕ = to_string (length (body m)) in
    ap (λ t. t ++ rest)
      (serialize-fields_text m
        ∙ begin_string-text
            (field_text (Tag.body_length, len) ++ fields_text (kept m ++ (sum ∷ [])))
        ∙ ap (λ t. codes "8=FIX.4.4" ++ (soh ∷ t))
            (body_length-text len (fields_text (kept m ++ (sum ∷ [])))
              ∙ ap (λ t. codes "9=" ++ (len ++ (soh ∷ t)))
                  (fields_text-append (kept m) (sum ∷ [])
                    ∙ ap (λ t. t ++ (field_text sum ++ [])) (sym (body-fields_text m))
                    ∙ ap (λ t. body m ++ t) (append-nil (field_text sum)))))
    ∙ ap (λ t. codes "8=FIX.4.4" ++ (separator ++ t))
        (append_assoc len (soh ∷ (body m ++ field_text sum)) rest
          ∙ ap (λ t. len ++ (soh ∷ t)) (append_assoc (body m) (field_text sum) rest))

trailer-length : (s : List ℕ) → length (field_text (Tag.check_sum, checksum_text s)) ≡ 7
unfolding int_to_string to_string decimal checksum_text
trailer-length s = refl

abbrev tail : FixMessage → List ℕ → List ℕ
tail m rest = body m ++ (field_text (Tag.check_sum, checksum_text (pre_checksum (body m))) ++ rest)

pub serialize-length :
    (m : FixMessage) (rest : List ℕ)
    → length (serialize m ++ rest)
      ≡ 13 + length (to_string (length (body m))) + (length (body m) + 7 + length rest)
serialize-length m rest =
    let len : List ℕ = to_string (length (body m)) in
    let sum : List ℕ = field_text (Tag.check_sum, checksum_text (pre_checksum (body m))) in
    omega (
      arith,
      ap length (serialize-layout m rest),
      length-append len (soh ∷ tail m rest),
      length-append (body m) (sum ++ rest),
      length-append sum rest,
      trailer-length (pre_checksum (body m)),
    )

checksum_end-fits :
    (start n len : ℕ)
    → n < 2 ^ 31
    → start + n + 7 ≤ len
    → len < 2 ^ 64
    → checksum_end start (some n) len ≡ start + n + 7
checksum_end-fits start n len small here fits = ground arith

-- A text that begins as a serialized message does.
extract-header :
    (len t : List ℕ) (n : ℕ)
    → Lacks soh len
    → stoi len ≡ some n
    → n < 2 ^ 31
    → n + 7 ≤ length t
    → length (codes "8=FIX.4.4" ++ (separator ++ (len ++ (soh ∷ t)))) < 2 ^ 64
    → extract_message_length (codes "8=FIX.4.4" ++ (separator ++ (len ++ (soh ∷ t))))
      ≡ 13 + length len + (n + 7)
extract-header len t n digits read small here fits =
    extract-found (codes "8=FIX.4.4" ++ (separator ++ (len ++ (soh ∷ t))))
      (codes "FIX.4.4" ++ (separator ++ (len ++ (soh ∷ t)))) (codes "8=FIX.4.4", len ++ (soh ∷ t))
      (len, t) (strip_prefix-append prefix (codes "FIX.4.4" ++ (separator ++ (len ++ (soh ∷ t)))))
      (find_text-append soh (codes "9=") (codes "8=FIX.4.4") (len ++ (soh ∷ t)) (ground arith))
      (find-append soh len t digits)
    ∙ ap
        (λ o.
          checksum_end (length (codes "8=FIX.4.4") + 3 + length len + 1) o
            (length (codes "8=FIX.4.4" ++ (separator ++ (len ++ (soh ∷ t))))))
        read
    ∙ checksum_end-fits (12 + length len + 1) n
        (length (codes "8=FIX.4.4" ++ (separator ++ (len ++ (soh ∷ t))))) small
        (omega (arith, length-append len (soh ∷ t))) fits
    ∙ omega arith

-- The helper finds a serialized message's end, whatever follows.
pub extract-serialize :
    (m : FixMessage) (rest : List ℕ)
    → length (body m) < 2 ^ 31
    → length (serialize m ++ rest) < 2 ^ 64
    → extract_message_length (serialize m ++ rest) ≡ length (serialize m)
extract-serialize m rest short fits =
    let len : List ℕ = to_string (length (body m)) in
    let sum : List ℕ = field_text (Tag.check_sum, checksum_text (pre_checksum (body m))) in
    ap extract_message_length (serialize-layout m rest)
    ∙ extract-header len (tail m rest) (length (body m))
        (AllDigits-Lacks soh len (inl (omega arith)) (to_string-AllDigits (length (body m))))
        (stoi-to_string (length (body m)) short) short
        (omega (
          arith,
          length-append (body m) (sum ++ rest),
          length-append sum rest,
          trailer-length (pre_checksum (body m)),
        ))
        (subst (λ t. length t < 2 ^ 64) (serialize-layout m rest) fits)
    ∙ omega (arith, serialize-length m rest, length-append (serialize m) rest)

pub extract_message_length-nil : extract_message_length [] ≡ 0
unfolding extract_message_length strip_prefix
extract_message_length-nil = refl
