-- ===== src/Base/Ordered.antt =====
-- std::map with an integer key: the entries in the order of a comparison, `std::less` or
-- `std::greater`. The first entry is `*begin()`.
use Prim.Native.Nat.{ℕ}
use mathlib.Core.Path.{◌≡◌, refl}
use mathlib.Core.Bool.{Bool, true, false}
use mathlib.Core.Option.{none}
use mathlib.Core.Logic.{inl, inr}
use mathlib.Core.Option.{some}
use mathlib.Core.List.{[], ◌∷◌}
use native.Mathlib.Omega.{arith}
use real_time_market_data_fe.Base.Tests.{◌==◌, if◌then◌else◌, ltb, ==_iff, Bool-cases}
use real_time_market_data_fe.Base.Table.{Table, find, erase, modify}

-- The two comparisons of the program.
abbrev pub less : ℕ → ℕ → Bool
less a b = ltb a b

abbrev pub greater : ℕ → ℕ → Bool
greater a b = ltb b a

-- What the proofs need of a comparison.
pub record IsOrder (before : ℕ → ℕ → Bool) : Type 0 where
  pub irreflexive : (a : ℕ) → before a a ≡ false
  pub transitive : (a b c : ℕ) → before a b ≡ true → before b c ≡ true → before a c ≡ true
  pub trichotomous : (a b : ℕ) → before a b ≡ false → before b a ≡ false → a ≡ b

pub less-IsOrder : IsOrder less
less-IsOrder = record {
  irreflexive = λ a. ground arith;
  transitive = λ a b c p q. ground arith;
  trichotomous = λ a b p q. ground arith;
}

pub greater-IsOrder : IsOrder greater
greater-IsOrder = record {
  irreflexive = λ a. ground arith;
  transitive = λ a b c p q. ground arith;
  trichotomous = λ a b p q. ground arith;
}

module _ {ℓ} {V : Type ℓ} (before : ℕ → ℕ → Bool) where
  -- `m[k] = v`, which keeps the order.
  unfoldable pub insert : ℕ → V → Table V → Table V
  insert k v [] = (k, v) ∷ []
  insert k v ((j, w) ∷ t) =
      if j == k
      then (k, v) ∷ t
      else if before k j
      then (k, v) ∷ (j, w) ∷ t
      else (j, w) ∷ insert k v t

  pub find-insert :
      (k j : ℕ) (v : V) (t : Table V)
      → find j (insert k v t) ≡ (if k == j then some v else find j t)
  unfolding find insert
  find-insert k j v [] = refl
  find-insert k j v ((i, w) ∷ t) = ground (arith, find-insert k j v t)

  -- Every key comes after `k`.
  abbrev pub IsAfter : ℕ → Table V → Type 0
  IsAfter k [] = Unit
  IsAfter k ((j, v) ∷ t) = (before k j ≡ true) × IsAfter k t

  abbrev pub IsOrdered : Table V → Type 0
  IsOrdered [] = Unit
  IsOrdered ((j, v) ∷ t) = IsAfter j t × IsOrdered t

  pub IsAfter-erase : (k j : ℕ) (t : Table V) → IsAfter j t → IsAfter j (erase k t)
  unfolding erase
  IsAfter-erase k j [] h = tt
  IsAfter-erase k j ((i, v) ∷ t) h = ground (arith, IsAfter-erase k j t h.1)

  pub IsOrdered-erase : (k : ℕ) (t : Table V) → IsOrdered t → IsOrdered (erase k t)
  unfolding erase
  IsOrdered-erase k [] h = tt
  IsOrdered-erase k ((i, v) ∷ t) h =
      ground (arith, IsAfter-erase k i t h.0, IsOrdered-erase k t h.1)

  pub IsAfter-find :
      (k j : ℕ) (t : Table V) (v : V) → IsAfter k t → find j t ≡ some v → before k j ≡ true
  unfolding find
  IsAfter-find k j [] v h e = cc
  IsAfter-find k j ((i, w) ∷ t) v h e = ground (arith, IsAfter-find k j t v h.1)

  pub IsAfter-modify : (k j : ℕ) (f : V → V) (t : Table V) → IsAfter j t → IsAfter j (modify k f t)
  unfolding modify
  IsAfter-modify k j f [] h = tt
  IsAfter-modify k j f ((i, v) ∷ t) h = ground (arith, IsAfter-modify k j f t h.1)

  pub IsOrdered-modify : (k : ℕ) (f : V → V) (t : Table V) → IsOrdered t → IsOrdered (modify k f t)
  unfolding modify
  IsOrdered-modify k f [] h = tt
  IsOrdered-modify k f ((i, v) ∷ t) h =
      ground (arith, IsAfter-modify k i f t h.0, IsOrdered-modify k f t h.1)

  module _ (o : IsOrder before) where
    pub IsAfter-none : (k : ℕ) (t : Table V) → IsAfter k t → find k t ≡ none
    unfolding find
    IsAfter-none k [] h = refl
    IsAfter-none k ((i, v) ∷ t) h = ground (arith, IsAfter-none k t h.1, o.irreflexive k)

    pub IsAfter-mono : (k j : ℕ) (t : Table V) → before k j ≡ true → IsAfter j t → IsAfter k t
    IsAfter-mono k j [] b h = tt
    IsAfter-mono k j ((i, v) ∷ t) b h = (o.transitive k j i b h.0, IsAfter-mono k j t b h.1)

    pub IsAfter-insert :
        (k j : ℕ) (v : V) (t : Table V) → before k j ≡ true → IsAfter k t → IsAfter k (insert j v t)
    unfolding insert
    IsAfter-insert k j v [] b h = (b, tt)
    IsAfter-insert k j v ((i, w) ∷ t) b h = ground (arith, IsAfter-insert k j v t b h.1)

    pub IsOrdered-insert : (k : ℕ) (v : V) (t : Table V) → IsOrdered t → IsOrdered (insert k v t)
    unfolding insert
    IsOrdered-insert k v [] h = (tt, tt)
    IsOrdered-insert k v ((i, w) ∷ t) h = ground (
      arith,
      IsOrdered-insert k v t h.1,
      IsAfter-mono k i t,
      IsAfter-insert i k v t,
      o.trichotomous i k,
    )

    -- An ordered map is determined by what it holds at each key.
    pub ordered_ext :
        (t u : Table V) → IsOrdered t → IsOrdered u → ((j : ℕ) → find j t ≡ find j u) → t ≡ u
    unfolding find
    ordered_ext [] [] h k e = refl
    ordered_ext [] ((j, w) ∷ u) h k e = ground (arith, e j)
    ordered_ext ((i, v) ∷ t) [] h k e = ground (arith, e i)
    ordered_ext ((i, v) ∷ t) ((j, w) ∷ u) h k e = elim (Bool-cases (i == j)) [
      | inl y ↦
          let same : i ≡ j = (==_iff i j).0 y in
          let tails : t ≡ u = ordered_ext t u h.1 k.1 (λ m. elim (Bool-cases (i == m)) [
            | inl z ↦ ground (arith, IsAfter-none i t h.0, IsAfter-none j u k.0)
            | inr z ↦ ground (arith, e m)
          ]) in
          ground (arith, e i, tails)
      | inr n ↦ absurd (
          ground (
            arith,
            e i,
            e j,
            IsAfter-find i j t w h.0,
            IsAfter-find j i u v k.0,
            o.transitive i j i,
            o.irreflexive i,
          ))
    ]
