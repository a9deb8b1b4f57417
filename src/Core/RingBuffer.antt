-- ===== src/Core/RingBuffer.antt =====
-- include/qf/core/ring_buffer.hpp: the ring buffer and its three access policies. `x & MASK`, with
-- MASK one below a power of two, is the remainder by the capacity. The methods run here without
-- interruption, where each compare-and-exchange succeeds and each spin loop ends at once; `Threads`
-- interleaves their visible accesses.
pub mod Threads
use real_time_market_data_fe.Base.{
  get_elem?, set, replicate, ℕ, zero, suc, ◌+◌, ◌-◌, ◌*◌, ◌/◌, ◌%◌, ◌^◌, ◌<◌, ◌≤◌, ◌≡◌, ◌≢◌, ◌∙◌,
  refl, sym, ap, subst, ◌==◌, ltb, leb, ◌&&◌, ◌||◌, if◌then◌else◌, dec_lt, Option-cases, Bool, true,
  false, Bool-cases, ◌⊎◌, inl, inr, Option, none, some, List, [], ◌∷◌, ◌++◌, append-nil,
  append_assoc, arith, All, length, length-append, take, drop, take-append-drop, min, max, flatten,
  map,
}
use real_time_market_data_fe.Base.Words.{sub64}

pub data Policy : Type 0 where
  spsc : Policy
  mpsc : Policy
  mpmc : Policy

pub record RingBuffer {ℓ} (A : Type ℓ) : Type ℓ where
  pub buffer : List A
  pub head : ℕ
  pub tail : ℕ
  pub committed : ℕ

-- `(i + 1) & mask`
abbrev pub masked_next : ℕ → ℕ → ℕ
masked_next capacity i = (i + 1) % capacity

-- The index up to which a consumer reads.
abbrev pub readable_end {ℓ} : {A : Type ℓ} → Policy → RingBuffer A → ℕ
readable_end spsc r = r.head
readable_end mpsc r = r.committed
readable_end mpmc r = r.committed

-- `commit` of the slot that is its turn; it is a no-op for a single producer.
abbrev pub commit {ℓ} : {A : Type ℓ} → ℕ → Policy → ℕ → RingBuffer A → RingBuffer A
commit capacity spsc slot r = r
commit capacity mpsc slot r = record r { committed = masked_next capacity slot }
commit capacity mpmc slot r = record r { committed = masked_next capacity slot }

module _ {ℓ} {A : Type ℓ} (capacity : ℕ) (policy : Policy) where
  -- `claim_head`: the slot, or nothing if the buffer is full.
  unfoldable pub claim_head : RingBuffer A → RingBuffer A × Option ℕ
  claim_head r =
      if masked_next capacity r.head == r.tail
      then (r, none)
      else (record r { head = masked_next capacity r.head }, some r.head)

  -- `claim_tail`: the slot, or nothing if the buffer is empty.
  unfoldable pub claim_tail : RingBuffer A → RingBuffer A × Option ℕ
  claim_tail r =
      if r.tail == readable_end policy r
      then (r, none)
      else (record r { tail = masked_next capacity r.tail }, some r.tail)

  -- Both overloads of `try_push`.
  unfoldable pub try_push : RingBuffer A → A → RingBuffer A × Bool
  try_push r item =
      let (r', claimed) = claim_head r in
      elim claimed [
        | none ↦ (r, false)
        | some slot ↦
            (commit capacity policy slot (record r' { buffer = set r'.buffer slot item }), true)
      ]

  -- The option is what goes through `item`.
  unfoldable pub try_pop : RingBuffer A → RingBuffer A × Option A
  try_pop r =
      let (r', claimed) = claim_tail r in
      elim claimed [ none ↦ (r, none) | some slot ↦ (r', get_elem? r'.buffer slot) ]

  -- For `max_count` rounds at most: the buffer, and the items.
  unfoldable pub try_pop_batch : RingBuffer A → ℕ → RingBuffer A × List A
  try_pop_batch r zero = (r, [])
  try_pop_batch r (suc max_count) =
      let (r', popped) = try_pop r in
      let (r'', items) = try_pop_batch r' max_count in
      elim popped [ none ↦ (r, []) | some x ↦ (r'', x ∷ items) ]

  unfoldable pub size : RingBuffer A → ℕ
  size r = sub64 (readable_end policy r) r.tail % capacity

  unfoldable pub empty : RingBuffer A → Bool
  empty r = readable_end policy r == r.tail

  unfoldable pub full : RingBuffer A → Bool
  full r = size r == capacity - 1
