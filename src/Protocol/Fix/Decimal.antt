-- ===== src/Protocol/Fix/Decimal.antt =====
-- Numbers as text: `std::to_string`, `std::stoi` and `std::stoll`. A signed integer is its two's
-- complement pattern.
use native.Mathlib.Nat.{pow-suc}
use real_time_market_data_fe.Base.{
  ℕ, zero, suc, ◌+◌, ◌-◌, ◌*◌, ◌/◌, ◌%◌, ◌^◌, ◌<◌, ◌≡◌, refl, ◌==◌, ltb, leb, ◌&&◌, ◌||◌,
  if◌then◌else◌, Bool, true, false, Bool-cases, inl, inr, Option, none, some, List, [], ◌∷◌, ◌++◌,
  arith, All, length, length-append, subst,
}

abbrev pub is_digit : ℕ → Bool
is_digit c = leb b'0' c && leb c b'9'

-- The digits of `n`, at most as many as the fuel.
unfoldable pub decimal : ℕ → ℕ → List ℕ
decimal zero n = []
decimal (suc fuel) n =
    let more = decimal fuel (n / 10) ++ ((48 + n % 10) ∷ []) in
    if ltb n 10 then (48 + n) ∷ [] else more

-- Of a 64-bit number: 20 digits are enough.
unfoldable pub to_string : ℕ → List ℕ
to_string n = decimal 20 n

-- Of an `int`.
unfoldable pub int_to_string : ℕ → List ℕ
unfolding to_string
int_to_string w = if ltb w (2 ^ 31) then to_string w else b'-' ∷ to_string (2 ^ 32 - w)

-- The number that the digits in front stand for, behind `acc`.
unfoldable pub read_digits : ℕ → List ℕ → ℕ
read_digits acc [] = acc
read_digits acc (c ∷ s) = if is_digit c then read_digits (acc * 10 + (c - 48)) s else acc

abbrev pub is_space : ℕ → Bool
is_space c = c == 32 || (leb 9 c && leb c 13)

unfoldable pub skip_spaces : List ℕ → List ℕ
skip_spaces [] = []
skip_spaces (c ∷ s) = if is_space c then skip_spaces s else c ∷ s

-- Out of range is an exception.
abbrev pub in_range : ℕ → Bool → ℕ → Option ℕ
in_range half true v = if leb v half then some ((half + half - v) % (half + half)) else none
in_range half false v = if ltb v half then some v else none

abbrev pub after_sign : ℕ → Bool → List ℕ → Option ℕ
after_sign half negative [] = none
after_sign half negative (c ∷ s) =
    if is_digit c then in_range half negative (read_digits 0 (c ∷ s)) else none

abbrev pub strip_sign : ℕ → List ℕ → Option ℕ
strip_sign half [] = none
strip_sign half (c ∷ s) =
    if c == b'-'
    then after_sign half true s
    else if c == b'+'
    then after_sign half false s
    else after_sign half false (c ∷ s)

-- Nothing is where these throw.
unfoldable pub stoi : List ℕ → Option ℕ
unfolding read_digits
stoi s = strip_sign (2 ^ 31) (skip_spaces s)

unfoldable pub stoll : List ℕ → Option ℕ
unfolding read_digits
stoll s = strip_sign (2 ^ 63) (skip_spaces s)

abbrev pub AllDigits : List ℕ → Type 0
AllDigits = All (λ (c : ℕ). is_digit c ≡ true)

AllDigits-snoc : (s : List ℕ) (c : ℕ) → AllDigits s → is_digit c ≡ true → AllDigits (s ++ (c ∷ []))
AllDigits-snoc [] c h k = (k, tt)
AllDigits-snoc (d ∷ s) c h k = (h.0, AllDigits-snoc s c h.1 k)

pub decimal-AllDigits : (fuel n : ℕ) → AllDigits (decimal fuel n)
unfolding decimal
decimal-AllDigits zero n = tt
decimal-AllDigits (suc fuel) n = elim (Bool-cases (ltb n 10)) [
  | inl y ↦ rw y (ground arith, tt)
  | inr n' ↦ rw n' (
      AllDigits-snoc (decimal fuel (n / 10)) (48 + n % 10) (decimal-AllDigits fuel (n / 10))
        (ground arith))
]

read_digits-append :
    (acc : ℕ) (s t : List ℕ)
    → AllDigits s
    → read_digits acc (s ++ t) ≡ read_digits (read_digits acc s) t
unfolding read_digits
read_digits-append acc [] t h = refl
read_digits-append acc (c ∷ s) t h = rw (h.0) (read_digits-append (acc * 10 + (c - 48)) s t h.1)

pub read_digits-decimal : (fuel n : ℕ) → n < 10 ^ fuel → read_digits 0 (decimal fuel n) ≡ n
unfolding decimal read_digits
read_digits-decimal zero n h = omega arith
read_digits-decimal (suc fuel) n h =
    let smaller : n / 10 < 10 ^ fuel = omega (arith, pow-suc 10 fuel) in
    ground (
      arith,
      read_digits-decimal fuel (n / 10) smaller,
      read_digits-append 0 (decimal fuel (n / 10)) ((48 + n % 10) ∷ [])
          (decimal-AllDigits fuel (n / 10)),
    )

-- A text of digits.
strip_sign-digits :
    (half : ℕ) (s : List ℕ)
    → AllDigits s
    → 0 < length s
    → read_digits 0 s < half
    → strip_sign half (skip_spaces s) ≡ some (read_digits 0 s)
unfolding skip_spaces
strip_sign-digits half [] h pos lt = absurd (omega arith)
strip_sign-digits half (c ∷ s) h pos lt = ground arith

decimal-length : (fuel n : ℕ) → 0 < length (decimal (suc fuel) n)
unfolding decimal
decimal-length fuel n = ground (arith, length-append (decimal fuel (n / 10)) ((48 + n % 10) ∷ []))

-- A printed number is read back when it is in range.
strip_sign-to_string :
    (half n : ℕ) → n < half → n < 10 ^ 20 → strip_sign half (skip_spaces (to_string n)) ≡ some n
unfolding to_string
strip_sign-to_string half n h fits =
    let back = read_digits-decimal 20 n fits in
    subst (λ k. strip_sign half (skip_spaces (decimal 20 n)) ≡ some k) back
      (strip_sign-digits half (decimal 20 n) (decimal-AllDigits 20 n) (decimal-length 19 n)
        (omega (arith, back)))

pub stoi-to_string : (n : ℕ) → n < 2 ^ 31 → stoi (to_string n) ≡ some n
unfolding stoi
stoi-to_string n h = strip_sign-to_string (2 ^ 31) n h (omega arith)

pub stoll-to_string : (n : ℕ) → n < 2 ^ 63 → stoll (to_string n) ≡ some n
unfolding stoll
stoll-to_string n h = strip_sign-to_string (2 ^ 63) n h (omega arith)

pub to_string-AllDigits : (n : ℕ) → AllDigits (to_string n)
unfolding to_string
to_string-AllDigits n = decimal-AllDigits 20 n
