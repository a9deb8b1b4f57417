-- ===== src/Core/SpscQueue.antt =====
-- include/qf/core/spsc_queue.hpp. `x & MASK`, with MASK one below a power of two, is the remainder
-- by the capacity. The methods run here without interruption; `Threads` interleaves them.
pub mod Slots
pub mod Fifo
pub mod Threads
use real_time_market_data_fe.Base.{
  ℕ, ◌+◌, ◌-◌, ◌%◌, zero, suc, ◌==◌, if◌then◌else◌, Bool, true, false, Option, none, some, List, [],
  ◌∷◌, get_elem?, set,
}
use real_time_market_data_fe.Base.Words.{sub64}

pub record SpscQueue {ℓ} (A : Type ℓ) : Type ℓ where
  pub buffer : List A
  pub head : ℕ
  pub tail : ℕ

-- `(i + 1) & MASK`
abbrev pub masked_next : ℕ → ℕ → ℕ
masked_next capacity i = (i + 1) % capacity

module _ {ℓ} {A : Type ℓ} (capacity : ℕ) where
  -- Both overloads of `try_push`.
  unfoldable pub try_push : SpscQueue A → A → SpscQueue A × Bool
  try_push q item = if masked_next capacity q.head == q.tail then (q, false) else (
    record q { buffer = set q.buffer q.head item; head = masked_next capacity q.head },
    true,
  )

  -- The option is what goes through `item`.
  unfoldable pub try_pop : SpscQueue A → SpscQueue A × Option A
  try_pop q =
      if q.tail == q.head
      then (q, none)
      else (record q { tail = masked_next capacity q.tail }, get_elem? q.buffer q.tail)

  -- The loop of `try_push_batch`: the queue, and how many items went in.
  unfoldable pub try_push_batch : SpscQueue A → List A → SpscQueue A × ℕ
  try_push_batch q [] = (q, 0)
  try_push_batch q (x ∷ xs) =
      let (q', pushed) = try_push q x in
      let (q'', n) = try_push_batch q' xs in if pushed then (q'', n + 1) else (q, 0)

  -- The loop of `try_pop_batch`, for `max_count` rounds at most: the queue, and the items.
  unfoldable pub try_pop_batch : SpscQueue A → ℕ → SpscQueue A × List A
  try_pop_batch q zero = (q, [])
  try_pop_batch q (suc max_count) =
      let (q', popped) = try_pop q in
      let (q'', items) = try_pop_batch q' max_count in
      elim popped [ none ↦ (q, []) | some x ↦ (q'', x ∷ items) ]

  unfoldable pub size : SpscQueue A → ℕ
  size q = sub64 q.head q.tail % capacity

  unfoldable pub empty : SpscQueue A → Bool
  empty q = q.head == q.tail

  unfoldable pub full : SpscQueue A → Bool
  full q = size q == capacity - 1
