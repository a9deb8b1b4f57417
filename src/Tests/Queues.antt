-- ===== src/Tests/Queues.antt =====
-- The queue of capacity 4 at concrete states.
use real_time_market_data_fe.Base.{
  ℕ, ◌≡◌, ◌≢◌, ◌<◌, refl, arith, true, false, some, List, [], ◌∷◌, ◌++◌, length, get_elem?,
}
use real_time_market_data_fe.Core.SpscQueue.{SpscQueue, try_push, try_pop, size, empty, full}
use real_time_market_data_fe.Core.SpscQueue.Fifo.{Represents, try_push_lem, try_pop_lem, size_lem}
use real_time_market_data_fe.Core.SpscQueue.Threads.{
  Machine, Reach, here, next, admit, write, publish, clear, start, admitted, cleared,
}
use real_time_market_data_fe.Core.SpscQueue.Threads.Safety.{Reach-fifo, Reach-no_race}

-- Two items, the second in the first slot.
abbrev wrapped : SpscQueue ℕ
wrapped = record { buffer = 20 ∷ 0 ∷ 0 ∷ 10 ∷ []; head = 1; tail = 3 }

wrapped-Represents : Represents 4 wrapped (10 ∷ 20 ∷ [])
wrapped-Represents = record {
  slots = (refl, (refl, tt));
  head = refl;
  tail = omega arith;
  room = omega arith;
  size = refl;
}

try_push_lem_example :
    let (q', pushed) = try_push 4 wrapped 30 in
    (pushed ≡ true) × Represents 4 q' (10 ∷ 20 ∷ 30 ∷ [])
try_push_lem_example = try_push_lem 4 wrapped (10 ∷ 20 ∷ []) 30 wrapped-Represents

try_pop_lem_example :
    let (q', popped) = try_pop 4 wrapped in (popped ≡ some 10) × Represents 4 q' (20 ∷ [])
try_pop_lem_example = try_pop_lem 4 wrapped (10 ∷ 20 ∷ []) wrapped-Represents

size_lem_example : (size 4 wrapped ≡ 2) × (empty 4 wrapped ≡ false) × (full 4 wrapped ≡ false)
size_lem_example = size_lem 4 wrapped (10 ∷ 20 ∷ []) 4611686018427387903 wrapped-Represents refl

abbrev four_slots : List ℕ
four_slots = 0 ∷ 0 ∷ 0 ∷ 0 ∷ []

-- The producer has pushed 5 and is about to write 6, the consumer is about to read 5.
abbrev both_inside : Machine ℕ
both_inside = record {
  queue = record { buffer = 5 ∷ 0 ∷ 0 ∷ 0 ∷ []; head = 1; tail = 0 };
  producer = admitted 6;
  consumer = cleared;
  pushed = 5 ∷ [];
  popped = [];
}

both_inside-Reach : Reach 4 (start four_slots) both_inside
both_inside-Reach =
    next
      (next
        (next (next (next here (admit 5 refl (ground arith) refl)) (write 5 refl refl))
          (publish 5 refl refl))
        (admit 6 refl (ground arith) refl))
      (clear refl (ground arith) refl)

Reach-fifo_example :
    (items : List ℕ) × (both_inside.pushed ≡ both_inside.popped ++ items) × (length items < 4)
Reach-fifo_example = Reach-fifo 4 four_slots both_inside refl (omega arith) both_inside-Reach

Reach-no_race_example :
    (both_inside.queue.head ≢ both_inside.queue.tail)
    × (both_inside.queue.head < length both_inside.queue.buffer)
    × (y : ℕ) × (get_elem? both_inside.queue.buffer both_inside.queue.tail ≡ some y)
Reach-no_race_example =
    Reach-no_race 4 four_slots both_inside 6 refl (omega arith) both_inside-Reach refl refl
