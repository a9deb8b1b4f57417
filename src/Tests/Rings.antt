-- ===== src/Tests/Rings.antt =====
-- Ring buffers at concrete interleavings.
use real_time_market_data_fe.Base.{
  ℕ, ◌+◌, ◌≤◌, ◌≡◌, refl, some, List, [], ◌∷◌, ◌++◌, arith, length, drop, ◌≢◌,
}
use real_time_market_data_fe.Core.RingBuffer.{spsc, mpsc, try_push, try_pop, claim_head, claim_tail}
use real_time_market_data_fe.Core.RingBuffer.Threads.{
  resting, waiting, Machine, claim, write, publish, advance, read, Reach, here, next, start,
  claimed, load_head, find_room, lose_head, load_tail, find_item, IsPrompt,
}
use real_time_market_data_fe.Core.RingBuffer.Threads.Races.{unwritten, Reach-unwritten}
use real_time_market_data_fe.Core.RingBuffer.Threads.Safety.{Reach-claim_order}

abbrev blank : List ℕ
blank = 0 ∷ 0 ∷ 0 ∷ 0 ∷ []

shared : mpsc ≢ spsc
shared = ground arith

-- Two producers load the same head, one of them loses the exchange and tries again; the second one
-- writes first, both publish, and an item is popped.
abbrev popped_one : Machine ℕ
popped_one = record {
  ring = record { buffer = 7 ∷ 8 ∷ 0 ∷ 0 ∷ []; head = 2; tail = 1; committed = 2 };
  producers = resting ∷ resting ∷ [];
  consumers = waiting ∷ [];
  pushed = 7 ∷ 8 ∷ [];
  popped = 7 ∷ [];
}

abbrev both_claimed : Machine ℕ
both_claimed = record {
  ring = record { buffer = blank; head = 2; tail = 0; committed = 0 };
  producers = claimed 7 0 ∷ claimed 8 1 ∷ [];
  consumers = waiting ∷ [];
  pushed = 7 ∷ 8 ∷ [];
  popped = [];
}

abbrev Reach-both_claimed : Reach 4 mpsc (start blank 2 1) both_claimed
Reach-both_claimed =
    let loaded = next (next here (load_head 0 7 refl refl)) (load_head 1 8 refl refl) in
    let found =
      next (next loaded (find_room 0 7 0 0 refl (omega arith) refl))
        (find_room 1 8 0 0 refl (omega arith) refl) in
    let one_lost =
      next (next found (claim 0 7 0 0 refl refl refl)) (lose_head 1 8 0 0 shared refl refl) in
    next (next one_lost (find_room 1 8 1 1 refl (omega arith) refl)) (claim 1 8 1 1 refl refl refl)

abbrev Reach-popped_one : Reach 4 mpsc (start blank 2 1) popped_one
Reach-popped_one =
    let written = next (next Reach-both_claimed (write 1 8 1 refl refl)) (write 0 7 0 refl refl) in
    let published =
      next (next written (publish 0 7 0 refl refl refl)) (publish 1 8 1 refl refl refl) in
    let found =
      next (next published (load_tail 0 refl refl)) (find_item 0 0 refl (omega arith) refl) in
    next (next found (advance 0 0 refl tt refl)) (read 0 0 7 refl refl refl)

popped_one-IsPrompt : IsPrompt 4 mpsc Reach-popped_one
unfolding IsPrompt
popped_one-IsPrompt = (
  (
    (
      (
        (
          (((((((((((tt, tt), tt), tt), tt), omega arith), tt), tt), omega arith), tt), tt), tt),
          tt,
        ),
        tt,
      ),
      tt,
    ),
    tt,
  ),
  tt,
)

Reach-claim_order_example :
    (popped_one.popped ++ drop (length popped_one.popped) popped_one.pushed ≡ popped_one.pushed)
    × (length popped_one.pushed ≤ length popped_one.popped + 4)
Reach-claim_order_example =
    Reach-claim_order 4 blank 2 popped_one (omega arith) refl Reach-popped_one popped_one-IsPrompt

Reach-unwritten_example : Reach 4 spsc (start blank 1 1) (unwritten 4 (start blank 1 1) 7 0)
Reach-unwritten_example = Reach-unwritten 4 (start blank 1 1) 7 0 refl refl refl (omega arith) refl

-- Run without interruption, a push and a pop pass the item on.
pushed_then_popped : (try_pop 4 spsc (try_push 4 spsc (start blank 1 1).ring 7).0).1 ≡ some 7
unfolding try_push try_pop claim_head claim_tail
pushed_then_popped = refl
