-- ===== src/Core/RingBuffer/Threads.antt =====
-- Any number of producer and consumer threads on a ring buffer, interleaved. A step is one access
-- that the other threads can see: the load of an index, the test against the other side's, the claim
-- of the slot (a store for a single thread, a compare-and-exchange for several), the access to the
-- slot, the commit.
pub mod Invariant
pub mod Producers
pub mod Attempts
pub mod Commits
pub mod Consumers
pub mod Races
pub mod Safety
use real_time_market_data_fe.Base.{
  get_elem?, set, replicate, ℕ, zero, suc, ◌+◌, ◌-◌, ◌*◌, ◌/◌, ◌%◌, ◌^◌, ◌<◌, ◌≤◌, ◌≡◌, ◌≢◌, ◌∙◌,
  refl, sym, ap, subst, ◌==◌, ltb, leb, ◌&&◌, ◌||◌, if◌then◌else◌, dec_lt, Option-cases, Bool, true,
  false, Bool-cases, ◌⊎◌, inl, inr, Option, none, some, List, [], ◌∷◌, ◌++◌, append-nil,
  append_assoc, arith, All, length, length-append, drop, take-append-drop, min, max, flatten, map,
}
use real_time_market_data_fe.Core.RingBuffer.{
  RingBuffer, Policy, spsc, mpsc, mpmc, masked_next, readable_end, commit,
}

-- Where a thread is in its `try_push` or `try_pop`: with the index that it has loaded, from before
-- the test and from after it, or with the slot that it has claimed. A producer's `seen` is the number
-- of slots that all producers had claimed at its load.
pub data Producer (A : Type 0) : Type 0 where
  resting : Producer A
  looking : (x : A) (h seen : ℕ) → Producer A
  tested : (x : A) (h seen : ℕ) → Producer A
  claimed : A → ℕ → Producer A
  written : A → ℕ → Producer A

pub data Consumer : Type 0 where
  waiting : Consumer
  peeking : ℕ → Consumer
  assured : ℕ → Consumer
  taking : ℕ → Consumer

-- `pushed` records the items in the order of their claims, `popped` what finished calls have passed.
pub record Machine (A : Type 0) : Type 0 where
  pub ring : RingBuffer A
  pub producers : List (Producer A)
  pub consumers : List Consumer
  pub pushed : List A
  pub popped : List A

-- A producer's turn to commit: `commit` of several producers spins until then.
abbrev pub IsTurn : {A : Type 0} → Policy → ℕ → RingBuffer A → Type 0
IsTurn spsc slot r = Unit
IsTurn mpsc slot r = r.committed ≡ slot
IsTurn mpmc slot r = r.committed ≡ slot

-- The comparison in the claim of a slot: a single thread stores without one.
abbrev pub HeadIsStill : {A : Type 0} → Policy → ℕ → RingBuffer A → Type 0
HeadIsStill spsc h r = Unit
HeadIsStill mpsc h r = h ≡ r.head
HeadIsStill mpmc h r = h ≡ r.head

abbrev pub TailIsStill : {A : Type 0} → Policy → ℕ → RingBuffer A → Type 0
TailIsStill spsc t r = Unit
TailIsStill mpsc t r = Unit
TailIsStill mpmc t r = t ≡ r.tail

module _ {A : Type 0} (capacity : ℕ) (policy : Policy) where
  pub data Step (m n : Machine A) : Type 0 where
    -- `h = head.load()` of producer `i`, in `try_push` of `x`
    load_head :
        (i : ℕ) (x : A)
        → get_elem? m.producers i ≡ some resting
        → n ≡ record m { producers = set m.producers i (looking x m.ring.head (length m.pushed)) }
        → Step m n
    -- The test against the tail finds room.
    find_room :
        (i : ℕ) (x : A) (h seen : ℕ)
        → get_elem? m.producers i ≡ some (looking x h seen)
        → masked_next capacity h ≢ m.ring.tail
        → n ≡ record m { producers = set m.producers i (tested x h seen) }
        → Step m n
    -- The test finds the buffer full; the call returns false.
    find_full :
        (i : ℕ) (x : A) (h seen : ℕ)
        → get_elem? m.producers i ≡ some (looking x h seen)
        → masked_next capacity h ≡ m.ring.tail
        → n ≡ record m { producers = set m.producers i resting }
        → Step m n
    -- The exchange fails, for another head or spuriously, and loads the head again.
    lose_head :
        (i : ℕ) (x : A) (h seen : ℕ)
        → policy ≢ spsc
        → get_elem? m.producers i ≡ some (tested x h seen)
        → n ≡ record m { producers = set m.producers i (looking x m.ring.head (length m.pushed)) }
        → Step m n
    -- The exchange, or the store of a single producer; `claim_head` returns true.
    claim :
        (i : ℕ) (x : A) (h seen : ℕ)
        → get_elem? m.producers i ≡ some (tested x h seen)
        → HeadIsStill policy h m.ring
        → n ≡ record m {
          ring = record (m.ring) { head = masked_next capacity h };
          producers = set m.producers i (claimed x h);
          pushed = m.pushed ++ (x ∷ []);
        }
        → Step m n
    -- `buffer_[slot] = item`
    write :
        (i : ℕ) (x : A) (slot : ℕ)
        → get_elem? m.producers i ≡ some (claimed x slot)
        → n ≡ record m {
          ring = record (m.ring) { buffer = set m.ring.buffer slot x };
          producers = set m.producers i (written x slot);
        }
        → Step m n
    -- `commit`; the call returns true.
    publish :
        (i : ℕ) (x : A) (slot : ℕ)
        → get_elem? m.producers i ≡ some (written x slot)
        → IsTurn policy slot m.ring
        → n ≡ record m {
          ring = commit capacity policy slot m.ring;
          producers = set m.producers i resting;
        }
        → Step m n
    -- `t = tail.load()` of consumer `j`
    load_tail :
        (j : ℕ)
        → get_elem? m.consumers j ≡ some waiting
        → n ≡ record m { consumers = set m.consumers j (peeking m.ring.tail) }
        → Step m n
    -- The test against the readable end finds an item.
    find_item :
        (j t : ℕ)
        → get_elem? m.consumers j ≡ some (peeking t)
        → t ≢ readable_end policy m.ring
        → n ≡ record m { consumers = set m.consumers j (assured t) }
        → Step m n
    -- The test finds the buffer empty; the call returns false.
    find_empty :
        (j t : ℕ)
        → get_elem? m.consumers j ≡ some (peeking t)
        → t ≡ readable_end policy m.ring
        → n ≡ record m { consumers = set m.consumers j waiting }
        → Step m n
    -- The exchange fails, for another tail or spuriously, and loads the tail again.
    lose_tail :
        (j t : ℕ)
        → policy ≡ mpmc
        → get_elem? m.consumers j ≡ some (assured t)
        → n ≡ record m { consumers = set m.consumers j (peeking m.ring.tail) }
        → Step m n
    -- The exchange, or the store of a single consumer; `claim_tail` returns true.
    advance :
        (j t : ℕ)
        → get_elem? m.consumers j ≡ some (assured t)
        → TailIsStill policy t m.ring
        → n ≡ record m {
          ring = record (m.ring) { tail = masked_next capacity t };
          consumers = set m.consumers j (taking t);
        }
        → Step m n
    -- `item = std::move(buffer_[slot])`; the call returns true.
    read :
        (j slot : ℕ) (x : A)
        → get_elem? m.consumers j ≡ some (taking slot)
        → get_elem? m.ring.buffer slot ≡ some x
        → n ≡ record m { consumers = set m.consumers j waiting; popped = m.popped ++ (x ∷ []) }
        → Step m n

  pub data Reach (m : Machine A) : Machine A → Type 0 where
    here : Reach m m
    next : {n o : Machine A} → Reach m n → Step n o → Reach m o

  -- A claim comes before `capacity` slots have been claimed since its load of the head, so that the
  -- head cannot have come round to the same index.
  abbrev pub PromptStep : {m n : Machine A} → Step m n → Type 0
  PromptStep {m = m} (claim i x h seen p still e) = length m.pushed < seen + capacity
  PromptStep _ = Unit

  unfoldable pub IsPrompt : {m n : Machine A} → Reach m n → Type 0
  IsPrompt here = Unit
  IsPrompt (next r s) = IsPrompt r × PromptStep s

-- A new ring over a buffer of the capacity's size, all threads at rest.
abbrev pub start : {A : Type 0} → List A → ℕ → ℕ → Machine A
start buffer producers consumers = record {
  ring = record { buffer = buffer; head = 0; tail = 0; committed = 0 };
  producers = replicate producers resting;
  consumers = replicate consumers waiting;
  pushed = [];
  popped = [];
}
