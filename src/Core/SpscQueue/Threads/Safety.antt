-- ===== src/Core/SpscQueue/Threads/Safety.antt =====
-- What the two threads never do to each other.
use real_time_market_data_fe.Base.{
  ℕ, ◌+◌, ◌<◌, ◌≡◌, ◌≢◌, sym, subst, ◌∙◌, some, List, ◌++◌, get_elem?, length, arith,
}
use real_time_market_data_fe.Core.SpscQueue.Slots.{mod_below, head_ne_tail}
use real_time_market_data_fe.Core.SpscQueue.Threads.{admitted, cleared, Machine, Reach, start}
use real_time_market_data_fe.Core.SpscQueue.Threads.Invariant.{
  ConsumerKnows, Reach-Holds, start-Holds, first_item,
}

module _ {A : Type 0} (capacity : ℕ) where
  -- However the two threads interleave on a new queue, whose buffer has `capacity` slots and at least
  -- one, what was popped is what was pushed, in order, but for fewer than `capacity` items that are
  -- still in the queue: none is lost, repeated or overtaken.
  pub Reach-fifo :
      (buffer : List A) (m : Machine A)
      → length buffer ≡ capacity
      → 0 < capacity
      → Reach capacity (start buffer) m
      → (items : List A) × (m.pushed ≡ m.popped ++ items) × (length items < capacity)
  Reach-fifo buffer m e pos r =
      let v = Reach-Holds capacity (start-Holds capacity buffer e pos) r in
      (v.items, v.fifo, v.room)

  -- On such a queue, while the producer is about to write a slot and the consumer is about to read one, these are two
  -- slots, both inside the buffer; and the consumer's slot holds an item.
  pub Reach-no_race :
      (buffer : List A) (m : Machine A) (x : A)
      → length buffer ≡ capacity
      → 0 < capacity
      → Reach capacity (start buffer) m
      → m.producer ≡ admitted x
      → m.consumer ≡ cleared
      → (m.queue.head ≢ m.queue.tail)
        × (m.queue.head < length m.queue.buffer)
        × (y : A) × (get_elem? m.queue.buffer m.queue.tail ≡ some y)
  Reach-no_race buffer m x e pos r p c =
      let v = Reach-Holds capacity (start-Holds capacity buffer e pos) r in
      let some_item = subst (ConsumerKnows capacity v.items) c v.consumer in
      let (y, rest, split, found) =
        first_item capacity m.queue.buffer v.items m.queue.tail some_item v.slots in
      (
        (λ q.
            head_ne_tail capacity m.queue.tail (length v.items) v.tail some_item v.room
              (sym v.head ∙ q)),
        omega (arith, v.size, v.head, mod_below (m.queue.tail + length v.items) capacity pos),
        y,
        found,
      )
