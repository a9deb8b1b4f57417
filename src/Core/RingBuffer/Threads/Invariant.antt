-- ===== src/Core/RingBuffer/Threads/Invariant.antt =====
-- What holds at every moment of several producers and one consumer on a ring buffer.
use native.Mathlib.Nat.{mod-add-mod, mod-lt, mod-eq-sub-mod}
use real_time_market_data_fe.Base.{
  ℕ, zero, suc, ◌+◌, ◌-◌, ◌%◌, ◌<◌, ◌≤◌, ◌≡◌, ◌≢◌, ◌∙◌, refl, sym, ap, dec_lt, get_elem?, set, ◌⊎◌,
  inl, inr, Option, none, some, List, [], ◌∷◌, ◌++◌, arith, length,
}
use real_time_market_data_fe.Core.RingBuffer.Threads.{
  Producer, resting, claimed, written, Consumer, waiting, taking, Machine, looking, tested, peeking,
  assured,
}
use real_time_market_data_fe.Core.SpscQueue.Slots.{wrap_ne}

-- Counts that are less than the capacity apart stand at different slots.
pub mod_apart : (c a b : ℕ) → 0 < c → a < b → b < a + c → a % c ≢ b % c
mod_apart c a b pos lt near e =
    wrap_ne c (a % c) (b - a - 1) (mod-lt a pos) (omega arith)
      (mod-add-mod a c (suc (b - a - 1)) ∙ ap (λ n. n % c) (omega arith) ∙ sym e)

pub mod_near : (c a b : ℕ) → 0 < c → a ≤ b → b < a + c → a % c ≡ b % c → a ≡ b
mod_near c a b pos le near e = elim (dec_lt a b) [
  | yes lt ↦ absurd (mod_apart c a b pos lt near e)
  | no n ↦ omega arith
]

-- What a producer has in flight, and where.
abbrev pub item_of : {A : Type 0} → Producer A → Option (A × ℕ)
item_of resting = none
item_of (looking x h seen) = none
item_of (tested x h seen) = none
item_of (claimed x slot) = some (x, slot)
item_of (written x slot) = some (x, slot)

-- No two producers hold the same slot.
abbrev pub Apart : {A : Type 0} → List (Producer A) → Type 0
Apart {A = A} ps =
    (i j : ℕ) (p q : Producer A) (x y : A) (slot slot' : ℕ)
    → i ≢ j
    → get_elem? ps i ≡ some p
    → get_elem? ps j ≡ some q
    → item_of p ≡ some (x, slot)
    → item_of q ≡ some (y, slot')
    → slot ≢ slot'

-- What an entry of a list is after one of them has been written.
pub get_elem?-set_cases {ℓ} :
    {A : Type ℓ} (xs : List A) (i j : ℕ) (v y : A)
    → get_elem? (set xs i v) j ≡ some y
    → ((i ≡ j) × (y ≡ v)) ⊎ ((i ≢ j) × (get_elem? xs j ≡ some y))
get_elem?-set_cases [] i j v y e = ground (arith, e)
get_elem?-set_cases (x ∷ xs) zero zero v y e = inl (refl, ground (arith, e))
get_elem?-set_cases (x ∷ xs) zero (suc j) v y e = inr (λ z. absurd (omega (arith, z)), e)
get_elem?-set_cases (x ∷ xs) (suc i) zero v y e = inr (λ z. absurd (omega (arith, z)), e)
get_elem?-set_cases (x ∷ xs) (suc i) (suc j) v y e = elim (get_elem?-set_cases xs i j v y e) [
  | inl h ↦ inl (ap suc h.0, h.1)
  | inr h ↦ inr (λ z. h.0 (omega (arith, z)), h.1)
]

-- What a producer that has not claimed yet has loaded of the head, and when.
abbrev pub sight_of : {A : Type 0} → Producer A → Option (ℕ × ℕ)
sight_of resting = none
sight_of (looking x h seen) = some (h, seen)
sight_of (tested x h seen) = some (h, seen)
sight_of (claimed x slot) = none
sight_of (written x slot) = none

-- Each such producer has the head as it was when `seen` of the `claims` slots had been claimed.
abbrev pub Loaded : {A : Type 0} → ℕ → ℕ → List (Producer A) → Type 0
Loaded {A = A} capacity claims ps =
    (i : ℕ) (p : Producer A) (h seen : ℕ)
    → get_elem? ps i ≡ some p
    → sight_of p ≡ some (h, seen)
    → (h ≡ seen % capacity) × (seen ≤ claims)

pub Loaded-set :
    {A : Type 0} (capacity claims claims' : ℕ) (ps : List (Producer A)) (i : ℕ) (r : Producer A)
    → Loaded capacity claims ps
    → claims ≤ claims'
    → ((h seen : ℕ) → sight_of r ≡ some (h, seen) → (h ≡ seen % capacity) × (seen ≤ claims'))
    → Loaded capacity claims' (set ps i r)
Loaded-set capacity claims claims' ps i r old le fresh j p h seen at it =
    elim (get_elem?-set_cases ps i j r p at) [
      | inl (ej, ep) ↦ fresh h seen (ap sight_of (sym ep) ∙ it)
      | inr l ↦ let (e, low) = old j p h seen l.1 it in (e, omega arith)
    ]

-- Each producer that has passed the test has room for its item, if it is the next to claim.
abbrev pub Roomy : {A : Type 0} → ℕ → ℕ → List (Producer A) → Type 0
Roomy {A = A} capacity takes ps =
    (i : ℕ) (x : A) (h seen : ℕ)
    → get_elem? ps i ≡ some (tested x h seen)
    → seen + 1 < takes + capacity

pub Roomy-set :
    {A : Type 0} (capacity takes : ℕ) (ps : List (Producer A)) (i : ℕ) (r : Producer A)
    → Roomy capacity takes ps
    → ((x : A) (h seen : ℕ) → tested x h seen ≡ r → seen + 1 < takes + capacity)
    → Roomy capacity takes (set ps i r)
Roomy-set capacity takes ps i r old fresh j x h seen at =
    elim (get_elem?-set_cases ps i j r (tested x h seen) at) [
      | inl (ej, ep) ↦ fresh x h seen ep
      | inr l ↦ old j x h seen l.1
    ]

-- The consumer has popped all that it has taken, or has claimed the slot of the item that it pops
-- next. The tail that it has loaded is the present one, and an item that it has found stays.
abbrev pub ConsumerKnows : ℕ → ℕ → ℕ → ℕ → Consumer → Type 0
ConsumerKnows capacity popped takes commits waiting = takes ≡ popped
ConsumerKnows capacity popped takes commits (peeking t) = (takes ≡ popped) × (t ≡ takes % capacity)
ConsumerKnows capacity popped takes commits (assured t) =
    (takes ≡ popped) × (t ≡ takes % capacity) × (takes < commits)
ConsumerKnows capacity popped takes commits (taking slot) =
    (takes ≡ suc popped) × (slot ≡ popped % capacity)

-- Further commits change nothing for the consumer.
pub ConsumerKnows-commit :
    (capacity popped takes commits : ℕ) (c : Consumer)
    → ConsumerKnows capacity popped takes commits c
    → ConsumerKnows capacity popped takes (commits + 1) c
ConsumerKnows-commit capacity popped takes commits waiting k = k
ConsumerKnows-commit capacity popped takes commits (peeking t) k = k
ConsumerKnows-commit capacity popped takes commits (assured t) (e, et, lt) =
    (e, et, omega (arith, lt))
ConsumerKnows-commit capacity popped takes commits (taking slot) k = k

pub get_elem?-append_left {ℓ} :
    {A : Type ℓ} (xs ys : List A) (q : ℕ) → q < length xs → get_elem? (xs ++ ys) q ≡ get_elem? xs q
get_elem?-append_left [] ys q h = absurd (omega arith)
get_elem?-append_left (x ∷ xs) ys zero h = refl
get_elem?-append_left (x ∷ xs) ys (suc q) h = get_elem?-append_left xs ys q (omega arith)

pub get_elem?-snoc {ℓ} :
    {A : Type ℓ} (xs : List A) (x : A) → get_elem? (xs ++ (x ∷ [])) (length xs) ≡ some x
get_elem?-snoc [] x = refl
get_elem?-snoc (y ∷ xs) x = get_elem?-snoc xs x

pub get_elem?-lt {ℓ} :
    {A : Type ℓ} (xs : List A) (q : ℕ) (x : A) → get_elem? xs q ≡ some x → q < length xs
get_elem?-lt [] q x e = ground (arith, e)
get_elem?-lt (y ∷ xs) zero x e = omega arith
get_elem?-lt (y ∷ xs) (suc q) x e = omega (arith, get_elem?-lt xs q x e)

-- A producer whose slot is none of the others'.
pub Apart-set :
    {A : Type 0} (ps : List (Producer A)) (i : ℕ) (r : Producer A)
    → Apart ps
    → ((j : ℕ) (q : Producer A) (x y : A) (slot slot' : ℕ)
        → i ≢ j
        → get_elem? ps j ≡ some q
        → item_of q ≡ some (y, slot')
        → item_of r ≡ some (x, slot)
        → slot ≢ slot')
    → Apart (set ps i r)
Apart-set ps i r apart other j k p q x y slot slot' ne e f g h =
    elim (get_elem?-set_cases ps i j r p e) [
      | inl (ej, ep) ↦ elim (get_elem?-set_cases ps i k r q f) [
        | inl l ↦ absurd (ne (sym ej ∙ l.0))
        | inr l ↦ other k q x y slot slot' l.0 l.1 h (ap item_of (sym ep) ∙ g)
      ]
      | inr l ↦ elim (get_elem?-set_cases ps i k r q f) [
        | inl (ek, eq) ↦ λ z. other j p y x slot' slot l.0 l.1 g (ap item_of (sym eq) ∙ h) (sym z)
        | inr l' ↦ apart j k p q x y slot slot' ne l.1 l'.1 g h
      ]
    ]

-- A claim leaves room if the next slot is not the tail's.
pub room_left : (c n t : ℕ) → n < t + c → (n + 1) % c ≢ t % c → n + 1 < t + c
room_left c n t h ne = elim (dec_lt (n + 1) (t + c)) [
  | yes lt ↦ lt
  | no not_lt ↦
      absurd (ne (mod-eq-sub-mod {n = n + 1} {m = c} (omega arith) ∙ ap (λ k. k % c) (omega arith)))
]

module _ {A : Type 0} (capacity : ℕ) where
  -- Item number `q` is in flight with a producer that holds the slot `slot`.
  abbrev pub InFlight : Machine A → ℕ → A → ℕ → Type 0
  InFlight m commits x slot =
      (q : ℕ) × ((slot ≡ q % capacity)
        × ((commits ≤ q) × ((q < length m.pushed) × (get_elem? m.pushed q ≡ some x))))

  pub record Holds (m : Machine A) : Type 0 where
    pub commits : ℕ
    pub takes : ℕ
    pub consumer : Consumer
    pub rest : List A
    pub head : m.ring.head ≡ length m.pushed % capacity
    pub committed : m.ring.committed ≡ commits % capacity
    pub tail : m.ring.tail ≡ takes % capacity
    pub taken : takes ≤ commits
    pub ordered : commits ≤ length m.pushed
    pub room : length m.pushed < takes + capacity
    pub single : m.consumers ≡ consumer ∷ []
    pub knows : ConsumerKnows capacity (length m.popped) takes commits consumer
    pub size : length m.ring.buffer ≡ capacity
    pub fifo : m.pushed ≡ m.popped ++ rest
    pub items :
        (q : ℕ) (x : A)
        → length m.popped ≤ q
        → q < commits
        → get_elem? m.pushed q ≡ some x
        → get_elem? m.ring.buffer (q % capacity) ≡ some x
    pub owned :
        (i : ℕ) (p : Producer A) (x : A) (slot : ℕ)
        → get_elem? m.producers i ≡ some p
        → item_of p ≡ some (x, slot)
        → InFlight m commits x slot
    pub stored :
        (i : ℕ) (x : A) (slot : ℕ)
        → get_elem? m.producers i ≡ some (written x slot)
        → get_elem? m.ring.buffer slot ≡ some x
    pub apart : Apart m.producers
    pub loaded : Loaded capacity (length m.pushed) m.producers
    pub roomy : Roomy capacity takes m.producers
