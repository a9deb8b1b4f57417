-- ===== src/Base/Table.antt =====
-- std::unordered_map with an integer key, as the list of its entries in iteration order. Keys are
-- unique in every table that these operations build (`HasUniqueKeys`).
use Prim.Native.Nat.{ℕ, ◌+◌, ◌≤◌}
use mathlib.Core.Path.{subst, ◌≡◌, refl}
use mathlib.Core.Logic.{inl, inr, ◌≢◌}
use mathlib.Core.Option
use mathlib.Core.Option.{some-injective, Option, none, some}
use mathlib.Core.List.{List, [], ◌∷◌}
use native.Mathlib.Omega.{arith}
use real_time_market_data_fe.Base.Tests.{Bool-cases, ◌==◌, if◌then◌else◌}
use real_time_market_data_fe.Base.Lists.{length, All}

abbrev pub Table {ℓ} : Type ℓ → Type ℓ
Table V = List (ℕ × V)

module _ {ℓ} {V : Type ℓ} where
  unfoldable pub find : ℕ → Table V → Option V
  find k [] = none
  find k ((j, v) ∷ t) = if j == k then some v else find k t

  unfoldable pub erase : ℕ → Table V → Table V
  erase k [] = []
  erase k ((j, v) ∷ t) = if j == k then erase k t else (j, v) ∷ erase k t

  -- Write through an iterator or a pointer to the entry; no entry, no change.
  unfoldable pub modify : ℕ → (V → V) → Table V → Table V
  modify k f [] = []
  modify k f ((j, v) ∷ t) = if j == k then (j, f v) ∷ modify k f t else (j, v) ∷ modify k f t

  -- `m[k] = v`.
  unfoldable pub assign : ℕ → V → Table V → Table V
  assign k v [] = (k, v) ∷ []
  assign k v ((j, w) ∷ t) = if j == k then (j, v) ∷ t else (j, w) ∷ assign k v t

  abbrev pub IsFresh : ℕ → Table V → Type 0
  IsFresh k [] = Unit
  IsFresh k ((j, v) ∷ t) = (j ≢ k) × IsFresh k t

  abbrev pub HasUniqueKeys : Table V → Type 0
  HasUniqueKeys [] = Unit
  HasUniqueKeys ((j, v) ∷ t) = IsFresh j t × HasUniqueKeys t

  pub find-erase :
      (k j : ℕ) (t : Table V) → find j (erase k t) ≡ (if k == j then none else find j t)
  unfolding find erase
  find-erase k j [] = ground arith
  find-erase k j ((i, v) ∷ t) = ground (arith, find-erase k j t)

  pub find-assign :
      (k j : ℕ) (v : V) (t : Table V)
      → find j (assign k v t) ≡ (if k == j then some v else find j t)
  unfolding find assign
  find-assign k j v [] = refl
  find-assign k j v ((i, w) ∷ t) = ground (arith, find-assign k j v t)

  pub IsFresh-find : (k : ℕ) (t : Table V) → find k t ≡ none → IsFresh k t
  unfolding find
  IsFresh-find k [] e = tt
  IsFresh-find k ((j, v) ∷ t) e = ground (arith, IsFresh-find k t)

  pub find_of_IsFresh : (k : ℕ) (t : Table V) → IsFresh k t → find k t ≡ none
  unfolding find
  find_of_IsFresh k [] e = refl
  find_of_IsFresh k ((j, v) ∷ t) e = ground (arith, find_of_IsFresh k t e.1)

  pub IsFresh-erase : (k j : ℕ) (t : Table V) → IsFresh j t → IsFresh j (erase k t)
  unfolding erase
  IsFresh-erase k j [] h = tt
  IsFresh-erase k j ((i, v) ∷ t) h = ground (arith, IsFresh-erase k j t h.1)

  pub IsFresh-modify : (k j : ℕ) (f : V → V) (t : Table V) → IsFresh j t → IsFresh j (modify k f t)
  unfolding modify
  IsFresh-modify k j f [] h = tt
  IsFresh-modify k j f ((i, v) ∷ t) h = ground (arith, IsFresh-modify k j f t h.1)

  pub HasUniqueKeys-erase : (k : ℕ) (t : Table V) → HasUniqueKeys t → HasUniqueKeys (erase k t)
  unfolding erase
  HasUniqueKeys-erase k [] h = tt
  HasUniqueKeys-erase k ((i, v) ∷ t) h =
      ground (arith, IsFresh-erase k i t h.0, HasUniqueKeys-erase k t h.1)

  pub HasUniqueKeys-modify :
      (k : ℕ) (f : V → V) (t : Table V) → HasUniqueKeys t → HasUniqueKeys (modify k f t)
  unfolding modify
  HasUniqueKeys-modify k f [] h = tt
  HasUniqueKeys-modify k f ((i, v) ∷ t) h =
      ground (arith, IsFresh-modify k i f t h.0, HasUniqueKeys-modify k f t h.1)

  pub erase-IsFresh : (k : ℕ) (t : Table V) → IsFresh k t → erase k t ≡ t
  unfolding erase
  erase-IsFresh k [] h = refl
  erase-IsFresh k ((j, v) ∷ t) h = ground (arith, erase-IsFresh k t h.1)

  pub modify-IsFresh : (k : ℕ) (f : V → V) (t : Table V) → IsFresh k t → modify k f t ≡ t
  unfolding modify
  modify-IsFresh k f [] h = refl
  modify-IsFresh k f ((j, v) ∷ t) h = ground (arith, modify-IsFresh k f t h.1)

  pub find-modify_self :
      (k : ℕ) (f : V → V) (t : Table V) (v : V)
      → find k t ≡ some v
      → find k (modify k f t) ≡ some (f v)
  unfolding find modify
  find-modify_self k f [] v e = cc
  find-modify_self k f ((j, w) ∷ t) v e = ground (arith, find-modify_self k f t v)

  pub find-modify_ne :
      (k j : ℕ) (f : V → V) (t : Table V) → k ≢ j → find j (modify k f t) ≡ find j t
  unfolding find modify
  find-modify_ne k j f [] h = refl
  find-modify_ne k j f ((i, w) ∷ t) h = ground (arith, find-modify_ne k j f t h)

  pub find-modify :
      (k j : ℕ) (f : V → V) (t : Table V)
      → find j (modify k f t) ≡ (if k == j then Option.map f (find j t) else find j t)
  unfolding find modify
  find-modify k j f [] = ground arith
  find-modify k j f ((i, w) ∷ t) = ground (arith, find-modify k j f t)

  -- A sum over the entries: how one change of the table moves it.
  unfoldable pub total : (V → ℕ) → Table V → ℕ
  total f [] = 0
  total f ((k, v) ∷ t) = f v + total f t

  pub total-cons :
      (f : V → ℕ) (k : ℕ) (v : V) (t : Table V) → total f ((k, v) ∷ t) ≡ total f t + f v
  unfolding total
  total-cons f k v t = omega arith

  pub total-erase :
      (f : V → ℕ) (k : ℕ) (t : Table V) (v : V)
      → HasUniqueKeys t
      → find k t ≡ some v
      → total f (erase k t) + f v ≡ total f t
  unfolding total erase find
  total-erase f k [] v u e = cc
  total-erase f k ((j, w) ∷ t) v u e =
      ground (arith, total-erase f k t v u.1, erase-IsFresh j t u.0)

  pub total-modify :
      (f : V → ℕ) (k : ℕ) (g : V → V) (t : Table V) (v : V)
      → HasUniqueKeys t
      → find k t ≡ some v
      → total f (modify k g t) + f v ≡ total f t + f (g v)
  unfolding total modify find
  total-modify f k g [] v u e = cc
  total-modify f k g ((j, w) ∷ t) v u e =
      ground (arith, total-modify f k g t v u.1, modify-IsFresh j g t u.0)

  pub total-assign :
      (f : V → ℕ) (k : ℕ) (v d : V) (t : Table V)
      → f d ≡ 0
      → total f (assign k v t) + f (Option.get_or (find k t) d) ≡ total f t + f v
  unfolding total assign find
  total-assign f k v d [] z = omega (arith, z)
  total-assign f k v d ((j, w) ∷ t) z = ground (arith, total-assign f k v d t z)

  pub erase-modify : (k : ℕ) (f : V → V) (t : Table V) → erase k (modify k f t) ≡ erase k t
  unfolding erase modify
  erase-modify k f [] = refl
  erase-modify k f ((j, w) ∷ t) = ground (arith, erase-modify k f t)

  -- One entry weighs no more than the whole.
  pub total-find : (f : V → ℕ) (k : ℕ) (t : Table V) (v : V) → find k t ≡ some v → f v ≤ total f t
  unfolding total find
  total-find f k [] v e = cc
  total-find f k ((j, w) ∷ t) v e = ground (arith, total-find f k t v)

  pub length-erase :
      (k : ℕ) (t : Table V) (v : V)
      → HasUniqueKeys t
      → find k t ≡ some v
      → length (erase k t) + 1 ≡ length t
  unfolding erase find
  length-erase k [] v u e = cc
  length-erase k ((j, w) ∷ t) v u e = ground (arith, length-erase k t v u.1, erase-IsFresh j t u.0)

  pub length-modify : (k : ℕ) (f : V → V) (t : Table V) → length (modify k f t) ≡ length t
  unfolding modify
  length-modify k f [] = refl
  length-modify k f ((j, w) ∷ t) = ground (arith, length-modify k f t)

  -- What holds of every value that a look-up finds holds of every entry.
  pub All-of_find {κ} :
      (P : V → Type κ) (t : Table V)
      → HasUniqueKeys t
      → ((k : ℕ) (v : V) → find k t ≡ some v → P v)
      → All (λ e. P e.1) t
  unfolding find
  All-of_find P [] u h = tt
  All-of_find P ((k, v) ∷ t) u h = (
    h k v (ground arith),
    All-of_find P t u.1 (λ j w e. h j w (ground (arith, find_of_IsFresh k t u.0, e))),
  )

  pub All-assign {κ} :
      (P : V → Type κ) (k : ℕ) (v : V) (t : Table V)
      → P v
      → All (λ e. P e.1) t
      → All (λ e. P e.1) (assign k v t)
  unfolding assign
  All-assign P k v [] p h = (p, tt)
  All-assign P k v ((j, w) ∷ t) p h = elim (Bool-cases (j == k)) [
    | inl y ↦ rw y (p, h.1)
    | inr n ↦ rw n (h.0, All-assign P k v t p h.1)
  ]

  pub All-find {κ} :
      (P : V → Type κ) (k : ℕ) (t : Table V) (v : V) → All (λ e. P e.1) t → find k t ≡ some v → P v
  unfolding find
  All-find P k [] v h e = cc
  All-find P k ((j, w) ∷ t) v h e = elim (Bool-cases (j == k)) [
    | inl y ↦ let same : w ≡ v = ground arith in subst P same h.0
    | inr n ↦ All-find P k t v h.1 (ground arith)
  ]
