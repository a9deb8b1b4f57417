-- ===== src/Protocol/Fix/Text.antt =====
-- Texts as lists of bytes, and the searches of `std::string_view` on them.
use Prim.Native.Char.{code}
use Prim.Native.String.{String}
use real_time_market_data_fe.Base.{
  ℕ, ◌≤◌, ◌≡◌, ◌≢◌, refl, ◌==◌, ◌&&◌, if◌then◌else◌, Option-cases, Bool, true, false, inl, inr,
  Option, none, some, List, [], ◌∷◌, ◌++◌, arith, All, length,
}

-- The bytes of an ASCII text.
abbrev pub codes : String → List ℕ
codes String.[] = []
codes (String.◌∷◌ c s) = code c ∷ codes s

-- `a == b` on two strings.
unfoldable pub same : List ℕ → List ℕ → Bool
same [] [] = true
same [] (b ∷ t) = false
same (a ∷ s) [] = false
same (a ∷ s) (b ∷ t) = (a == b) && same s t

abbrev pub prepend : ℕ → Option (List ℕ × List ℕ) → Option (List ℕ × List ℕ)
prepend b none = none
prepend b (some h) = some (b ∷ h.0, h.1)

abbrev pub found_or : Option (List ℕ × List ℕ) → Option (List ℕ) → Option (List ℕ × List ℕ)
found_or later none = later
found_or later (some r) = some ([], r)

-- `s.find(c)`: what stands before the first `c`, and what stands behind it.
unfoldable pub find : ℕ → List ℕ → Option (List ℕ × List ℕ)
find c [] = none
find c (b ∷ s) = let later = prepend b (find c s) in if b == c then some ([], s) else later

-- What stands behind the prefix `p`, which `s` may lack.
unfoldable pub strip_prefix : List ℕ → List ℕ → Option (List ℕ)
strip_prefix [] s = some s
strip_prefix (a ∷ p) [] = none
strip_prefix (a ∷ p) (b ∷ s) = let rest = strip_prefix p s in if a == b then rest else none

-- `s.find(p)` on a text: what stands before its first occurrence, and behind it.
unfoldable pub find_text : List ℕ → List ℕ → Option (List ℕ × List ℕ)
find_text p [] = found_or none (strip_prefix p [])
find_text p (b ∷ s) =
    let later = prepend b (find_text p s) in found_or later (strip_prefix p (b ∷ s))

-- No byte of the text is `c`.
abbrev pub Lacks : ℕ → List ℕ → Type 0
Lacks c = All (λ (b : ℕ). b ≢ c)

pub same_refl : (s : List ℕ) → same s s ≡ true
unfolding same
same_refl [] = refl
same_refl (a ∷ s) = ground (arith, same_refl s)

pub find-append : (c : ℕ) (s t : List ℕ) → Lacks c s → find c (s ++ (c ∷ t)) ≡ some (s, t)
unfolding find
find-append c [] t h = ground arith
find-append c (b ∷ s) t h = ground (arith, find-append c s t h.1, h.0)

pub strip_prefix-append : (p t : List ℕ) → strip_prefix p (p ++ t) ≡ some t
unfolding strip_prefix
strip_prefix-append [] t = refl
strip_prefix-append (a ∷ p) t = ground (arith, strip_prefix-append p t)

-- A prefix that begins with `c` is found behind a text without `c`.
pub find_text-append :
    (c : ℕ) (p s t : List ℕ) → Lacks c s → find_text (c ∷ p) (s ++ ((c ∷ p) ++ t)) ≡ some (s, t)
unfolding find_text strip_prefix
find_text-append c p [] t h = rw (strip_prefix-append (c ∷ p) t) refl
find_text-append c p (b ∷ s) t h = ground (arith, find_text-append c p s t h.1, h.0)

-- What is found stays found where more text follows.
pub find_stable :
    (c : ℕ) (s t : List ℕ) (h : List ℕ × List ℕ)
    → find c s ≡ some h
    → find c (s ++ t) ≡ some (h.0, h.1 ++ t)
unfolding find
find_stable c [] t h e = ground (arith, e)
find_stable c (b ∷ s) t h e = elim (Option-cases (find c s)) [
  | inl n ↦ ground (arith, n, e)
  | inr k ↦ ground (arith, k.1, e, find_stable c s t k.0 k.1)
]

pub strip_prefix_stable :
    (p s t r : List ℕ) → strip_prefix p s ≡ some r → strip_prefix p (s ++ t) ≡ some (r ++ t)
unfolding strip_prefix
strip_prefix_stable [] s t r e = ground (arith, e)
strip_prefix_stable (a ∷ p) [] t r e = ground (arith, e)
strip_prefix_stable (a ∷ p) (b ∷ s) t r e = elim (Option-cases (strip_prefix p s)) [
  | inl n ↦ ground (arith, n, e)
  | inr k ↦ ground (arith, k.1, e, strip_prefix_stable p s t k.0 k.1)
]

strip_prefix-fits : (p s r : List ℕ) → strip_prefix p s ≡ some r → length p ≤ length s
unfolding strip_prefix
strip_prefix-fits [] s r e = omega arith
strip_prefix-fits (a ∷ p) [] r e = ground (arith, e)
strip_prefix-fits (a ∷ p) (b ∷ s) r e = elim (Option-cases (strip_prefix p s)) [
  | inl n ↦ ground (arith, n, e)
  | inr k ↦ omega (arith, strip_prefix-fits p s k.0 k.1)
]

-- A text that is long enough and lacks a prefix lacks it where more text follows.
strip_prefix_missing :
    (p s t : List ℕ)
    → strip_prefix p s ≡ none
    → length p ≤ length s
    → strip_prefix p (s ++ t) ≡ none
unfolding strip_prefix
strip_prefix_missing [] s t e h = ground (arith, e)
strip_prefix_missing (a ∷ p) [] t e h = absurd (omega arith)
strip_prefix_missing (a ∷ p) (b ∷ s) t e h = elim (Option-cases (strip_prefix p s)) [
  | inl n ↦ ground (arith, strip_prefix_missing p s t n (omega arith))
  | inr k ↦ ground (arith, k.1, e)
]

find_text-fits : (p s : List ℕ) (h : List ℕ × List ℕ) → find_text p s ≡ some h → length p ≤ length s
unfolding find_text
find_text-fits p [] h e = elim (Option-cases (strip_prefix p [])) [
  | inl n ↦ ground (arith, n, e)
  | inr k ↦ strip_prefix-fits p [] k.0 k.1
]
find_text-fits p (b ∷ s) h e = elim (Option-cases (strip_prefix p (b ∷ s))) [
  | inl n ↦ elim (Option-cases (find_text p s)) [
    | inl n' ↦ ground (arith, n, n', e)
    | inr k ↦ omega (arith, find_text-fits p s k.0 k.1)
  ]
  | inr k ↦ strip_prefix-fits p (b ∷ s) k.0 k.1
]

pub find_text_stable :
    (c : ℕ) (p s t : List ℕ) (h : List ℕ × List ℕ)
    → find_text (c ∷ p) s ≡ some h
    → find_text (c ∷ p) (s ++ t) ≡ some (h.0, h.1 ++ t)
unfolding find_text strip_prefix
find_text_stable c p [] t h e = ground (arith, e)
find_text_stable c p (b ∷ s) t h e = elim (Option-cases (strip_prefix (c ∷ p) (b ∷ s))) [
  | inl n ↦ elim (Option-cases (find_text (c ∷ p) s)) [
    | inl n' ↦ ground (arith, n, n', e)
    | inr k ↦ ground (
      arith,
      n,
      k.1,
      e,
      find_text_stable c p s t k.0 k.1,
      strip_prefix_missing (c ∷ p) (b ∷ s) t n (omega (arith, find_text-fits (c ∷ p) s k.0 k.1)),
    )
  ]
  | inr k ↦ ground (arith, e, k.1, strip_prefix_stable (c ∷ p) (b ∷ s) t k.0 k.1)
]

pub same-eq : (s t : List ℕ) → same s t ≡ true → s ≡ t
unfolding same
same-eq [] [] h = refl
same-eq [] (b ∷ t) h = ground (arith, h)
same-eq (a ∷ s) [] h = ground (arith, h)
same-eq (a ∷ s) (b ∷ t) h =
    let heads : a ≡ b = ground (arith, h) in
    let tails : same s t ≡ true = ground (arith, h) in cc (heads, same-eq s t tails)
