-- ===== src/Core/SpscQueue/Slots.antt =====
-- Items in consecutive slots of a circular buffer.
use native.Mathlib.Nat.{mod-add-mod, mod-eq_of_lt, mod-eq-sub-mod, mod-lt, add-zero}
use native.Mathlib.Decide.{dec_lt}
use real_time_market_data_fe.Base.{
  ℕ, zero, suc, ◌+◌, ◌-◌, ◌%◌, ◌<◌, ◌≡◌, ◌≢◌, sym, ap, ◌∙◌, some, List, [], ◌∷◌, ◌++◌, get_elem?,
  set, length, get_elem?-set_ne, arith,
}

module _ {ℓ} {A : Type ℓ} (capacity : ℕ) where
  -- The slots from `i` on, going round at the capacity, hold `items`.
  abbrev pub Slots : List A → ℕ → List A → Type ℓ
  Slots buffer i [] = Unit
  Slots buffer i (x ∷ xs) = (get_elem? buffer i ≡ some x) × Slots buffer ((i + 1) % capacity) xs

-- Fewer steps than the capacity do not come round to the start.
pub wrap_ne : (capacity i k : ℕ) → i < capacity → suc k < capacity → (i + suc k) % capacity ≢ i
wrap_ne c i k hi hk = elim (dec_lt (i + suc k) c) [
  | yes p ↦ omega (arith, mod-eq_of_lt p)
  | no p ↦ omega (
    arith,
    mod-eq-sub-mod {n = i + suc k} {m = c} (omega arith),
    mod-eq_of_lt {n = i + suc k - c} {m = c} (omega arith),
  )
]

shift : (capacity i k : ℕ) → (i + suc k) % capacity ≡ ((i + 1) % capacity + k) % capacity
shift c i k = rw mod-add-mod (ap (λ n. n % c) (omega arith))

module _ {ℓ} {A : Type ℓ} (capacity : ℕ) (buffer : List A) (x : A) where
  -- A write behind the items leaves them, and a read there finds what was written.
  pub Slots-set :
      (i : ℕ) (items : List A) (at : ℕ)
      → i < capacity
      → length items < capacity
      → at ≡ (i + length items) % capacity
      → Slots capacity buffer i items
      → Slots capacity (set buffer at x) i items
  Slots-set i [] at hi hl e s = tt
  Slots-set i (y ∷ ys) at hi hl e s =
      let apart : at ≢ i = rw e (wrap_ne capacity i (length ys) hi hl) in
      (
        get_elem?-set_ne buffer x apart ∙ s.0,
        Slots-set ((i + 1) % capacity) ys at (mod-lt (i + 1) (omega arith)) (omega arith)
            (e ∙ shift capacity i (length ys)) s.1,
      )

  pub Slots-snoc :
      (i : ℕ) (items : List A)
      → i < capacity
      → Slots capacity buffer i items
      → get_elem? buffer ((i + length items) % capacity) ≡ some x
      → Slots capacity buffer i (items ++ (x ∷ []))
  Slots-snoc i [] hi s e =
      let here : (i + 0) % capacity ≡ i = ap (λ n. n % capacity) (omega arith) ∙ mod-eq_of_lt hi in
      (ap (get_elem? buffer) (sym here) ∙ e, tt)
  Slots-snoc i (y ∷ ys) hi s e = (
    s.0,
    Slots-snoc ((i + 1) % capacity) ys (mod-lt (i + 1) (omega arith)) s.1
        (ap (get_elem? buffer) (sym (shift capacity i (length ys))) ∙ e),
  )

-- Where the head stands tells how many items there are.
pub next_ne_tail : (c i n : ℕ) → i < c → n < c → ((i + n) % c + 1) % c ≢ i → n + 1 < c
next_ne_tail c i n hi hn ne = elim (dec_lt (n + 1) c) [
  | yes p ↦ p
  | no p ↦ absurd (ne (mod-add-mod (i + n) c 1 ∙ round (omega arith)))
]
  where
    round : n + 1 ≡ c → (i + n + 1) % c ≡ i
    round e =
        mod-eq-sub-mod {n = i + n + 1} {m = c} (omega arith)
        ∙ ap (λ k. k % c) (omega arith)
        ∙ mod-eq_of_lt hi

pub tail_ne_head : (c i n : ℕ) → i < c → n < c → i ≢ (i + n) % c → 0 < n
tail_ne_head c i zero hi hn ne = absurd (ne (sym (ap (λ n. n % c) (add-zero i) ∙ mod-eq_of_lt hi)))
tail_ne_head c i (suc n) hi hn ne = omega arith

-- The head of one item more.
pub next_head : (c i n : ℕ) → ((i + n) % c + 1) % c ≡ (i + (n + 1)) % c
next_head c i n = mod-add-mod (i + n) c 1 ∙ ap (λ k. k % c) (omega arith)

pub next_tail : (c i n : ℕ) → (i + suc n) % c ≡ ((i + 1) % c + n) % c
next_tail c i n = shift c i n

-- With room for one more the next head is not the tail.
pub next_ne_tail_of_room : (c i n : ℕ) → i < c → n + 1 < c → ((i + n) % c + 1) % c ≢ i
next_ne_tail_of_room c i n hi h e =
    wrap_ne c i n hi (omega arith)
      (ap (λ k. k % c) (omega arith) ∙ sym (mod-add-mod (i + n) c 1) ∙ e)

pub mod_below : (a c : ℕ) → 0 < c → a % c < c
mod_below a c h = mod-lt a h

pub head_ne_tail : (c i n : ℕ) → i < c → 0 < n → n < c → (i + n) % c ≢ i
head_ne_tail c i zero hi pos hn = absurd (omega arith)
head_ne_tail c i (suc n) hi pos hn = wrap_ne c i n hi hn
