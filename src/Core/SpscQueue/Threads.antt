-- ===== src/Core/SpscQueue/Threads.antt =====
-- One producer and one consumer thread, interleaved. A step is one access that the other thread can
-- see, in the order that the acquire and release operations enforce: the test of the other's index,
-- the access to the slot, the store of the own index.
pub mod Invariant
pub mod Safety
use native.Mathlib.Nat.{mod-eq_of_lt}
use real_time_market_data_fe.Base.{
  ℕ, zero, suc, ◌+◌, ◌-◌, ◌%◌, ◌≤◌, ◌<◌, ◌≡◌, ◌≢◌, refl, sym, ap, subst, ◌∙◌, ◌⊎◌, inl, inr, Option,
  none, some, List, [], ◌∷◌, ◌++◌, append_assoc, append-nil, get_elem?, set, length, length-append,
  length-set, get_elem?-set_self, replicate, length-replicate, arith,
}
use real_time_market_data_fe.Core.SpscQueue.{SpscQueue, masked_next}
use real_time_market_data_fe.Core.SpscQueue.Slots.{
  Slots, Slots-set, Slots-snoc, next_ne_tail, tail_ne_head, next_head, next_tail,
  next_ne_tail_of_room, mod_below, head_ne_tail,
}

-- Where a thread is in its `try_push` or `try_pop`.
pub data Producer (A : Type 0) : Type 0 where
  resting : Producer A
  admitted : A → Producer A
  written : A → Producer A

pub data Consumer (A : Type 0) : Type 0 where
  waiting : Consumer A
  cleared : Consumer A
  taken : A → Consumer A

-- `pushed` and `popped` record what the finished calls have passed, oldest first.
pub record Machine (A : Type 0) : Type 0 where
  pub queue : SpscQueue A
  pub producer : Producer A
  pub consumer : Consumer A
  pub pushed : List A
  pub popped : List A

module _ {A : Type 0} (capacity : ℕ) where
  pub data Step (m n : Machine A) : Type 0 where
    -- `try_push` finds room.
    admit :
        (x : A)
        → m.producer ≡ resting
        → masked_next capacity m.queue.head ≢ m.queue.tail
        → n ≡ record m { producer = admitted x }
        → Step m n
    -- `buffer_[head] = item`
    write :
        (x : A)
        → m.producer ≡ admitted x
        → n ≡ record m {
          queue = record (m.queue) { buffer = set m.queue.buffer m.queue.head x };
          producer = written x;
        }
        → Step m n
    -- `head_.store(next)`; the call returns true.
    publish :
        (x : A)
        → m.producer ≡ written x
        → n ≡ record m {
          queue = record (m.queue) { head = masked_next capacity m.queue.head };
          producer = resting;
          pushed = m.pushed ++ (x ∷ []);
        }
        → Step m n
    -- `try_pop` finds the queue not empty.
    clear :
        m.consumer ≡ waiting
        → m.queue.tail ≢ m.queue.head
        → n ≡ record m { consumer = cleared }
        → Step m n
    -- `item = buffer_[tail]`
    read :
        (x : A)
        → m.consumer ≡ cleared
        → get_elem? m.queue.buffer m.queue.tail ≡ some x
        → n ≡ record m { consumer = taken x }
        → Step m n
    -- `tail_.store((tail + 1) & MASK)`; the call returns true.
    release :
        (x : A)
        → m.consumer ≡ taken x
        → n ≡ record m {
          queue = record (m.queue) { tail = masked_next capacity m.queue.tail };
          consumer = waiting;
          popped = m.popped ++ (x ∷ []);
        }
        → Step m n

  pub data Reach (m : Machine A) : Machine A → Type 0 where
    here : Reach m m
    next : {n o : Machine A} → Reach m n → Step n o → Reach m o

-- A new queue over a buffer of the capacity's size, both threads at rest.
abbrev pub start : {A : Type 0} → List A → Machine A
start buffer = record {
  queue = record { buffer = buffer; head = 0; tail = 0 };
  producer = resting;
  consumer = waiting;
  pushed = [];
  popped = [];
}
