-- ===== src/Core/SpscQueue/Threads/Invariant.antt =====
-- What holds at every moment of two interleaved threads.
use native.Mathlib.Nat.{mod-eq_of_lt}
use real_time_market_data_fe.Base.{
  ℕ, ◌+◌, ◌%◌, ◌<◌, ◌≡◌, ◌≢◌, refl, sym, ap, subst, ◌∙◌, some, List, [], ◌∷◌, ◌++◌, append_assoc,
  get_elem?, set, length, length-append, length-set, get_elem?-set_self, arith,
}
use real_time_market_data_fe.Core.SpscQueue.{masked_next}
use real_time_market_data_fe.Core.SpscQueue.Slots.{
  Slots, Slots-set, Slots-snoc, next_ne_tail, tail_ne_head, next_head, next_tail, mod_below,
}
use real_time_market_data_fe.Core.SpscQueue.Threads.{
  Producer, resting, admitted, written, Consumer, waiting, cleared, taken, Machine, Step, admit,
  write, publish, clear, read, release, Reach, here, next, start,
}

module _ {A : Type 0} (capacity : ℕ) where
  -- What a thread may rely on where it stands, with `items` in the queue.
  abbrev pub ProducerKnows : Machine A → List A → Producer A → Type 0
  ProducerKnows m items resting = Unit
  ProducerKnows m items (admitted x) = length items + 1 < capacity
  ProducerKnows m items (written x) =
      (length items + 1 < capacity) × (get_elem? m.queue.buffer m.queue.head ≡ some x)

  abbrev pub ConsumerKnows : List A → Consumer A → Type 0
  ConsumerKnows items waiting = Unit
  ConsumerKnows items cleared = 0 < length items
  ConsumerKnows items (taken x) = (rest : List A) × (items ≡ x ∷ rest)

  ConsumerKnows-snoc :
      (items : List A) (x : A) (c : Consumer A)
      → ConsumerKnows items c
      → ConsumerKnows (items ++ (x ∷ [])) c
  ConsumerKnows-snoc items x waiting k = tt
  ConsumerKnows-snoc items x cleared k = omega (arith, k, length-append items (x ∷ []))
  ConsumerKnows-snoc items x (taken y) k = (k.0 ++ (x ∷ []), ap (λ l. l ++ (x ∷ [])) k.1)

  -- The queue holds `items`: what was pushed and not yet popped.
  pub record Holds (m : Machine A) : Type 0 where
    pub items : List A
    pub slots : Slots capacity m.queue.buffer m.queue.tail items
    pub head : m.queue.head ≡ (m.queue.tail + length items) % capacity
    pub tail : m.queue.tail < capacity
    pub room : length items < capacity
    pub size : length m.queue.buffer ≡ capacity
    pub fifo : m.pushed ≡ m.popped ++ items
    pub producer : ProducerKnows m items m.producer
    pub consumer : ConsumerKnows items m.consumer

  admit-Holds :
      (m : Machine A) (x : A)
      → m.producer ≡ resting
      → masked_next capacity m.queue.head ≢ m.queue.tail
      → Holds m
      → Holds (record m { producer = admitted x })
  admit-Holds m x p ne v = record {
    items = v.items;
    slots = v.slots;
    head = v.head;
    tail = v.tail;
    room = v.room;
    size = v.size;
    fifo = v.fifo;
    producer =
        next_ne_tail capacity m.queue.tail (length v.items) v.tail v.room
          (subst (λ h. (h + 1) % capacity ≢ m.queue.tail) v.head ne);
    consumer = v.consumer;
  }

  write-Holds :
      (m : Machine A) (x : A)
      → m.producer ≡ admitted x
      → Holds m
      → Holds (record m {
        queue = record (m.queue) { buffer = set m.queue.buffer m.queue.head x };
        producer = written x;
      })
  write-Holds m x p v = record {
    items = v.items;
    slots =
        Slots-set capacity m.queue.buffer x m.queue.tail v.items m.queue.head v.tail v.room v.head
          v.slots;
    head = v.head;
    tail = v.tail;
    room = v.room;
    size = length-set m.queue.buffer m.queue.head x ∙ v.size;
    fifo = v.fifo;
    producer = (
      subst (ProducerKnows m v.items) p v.producer,
      get_elem?-set_self m.queue.buffer m.queue.head x (
          omega (
            arith,
            v.size,
            v.head,
            v.tail,
            mod_below (m.queue.tail + length v.items) capacity (omega arith),
          )),
    );
    consumer = v.consumer;
  }

  publish-Holds :
      (m : Machine A) (x : A)
      → m.producer ≡ written x
      → Holds m
      → Holds (record m {
        queue = record (m.queue) { head = masked_next capacity m.queue.head };
        producer = resting;
        pushed = m.pushed ++ (x ∷ []);
      })
  publish-Holds m x p v =
      let known = subst (ProducerKnows m v.items) p v.producer in
      record {
        items = v.items ++ (x ∷ []);
        slots =
            Slots-snoc capacity m.queue.buffer x m.queue.tail v.items v.tail v.slots
              (ap (get_elem? m.queue.buffer) (sym v.head) ∙ known.1);
        head =
            ap (λ h. (h + 1) % capacity) v.head
            ∙ next_head capacity m.queue.tail (length v.items)
            ∙ ap (λ k. (m.queue.tail + k) % capacity) (sym (length-append v.items (x ∷ [])));
        tail = v.tail;
        room = omega (arith, known.0, length-append v.items (x ∷ []));
        size = v.size;
        fifo = ap (λ l. l ++ (x ∷ [])) v.fifo ∙ append_assoc m.popped v.items (x ∷ []);
        producer = tt;
        consumer = ConsumerKnows-snoc v.items x m.consumer v.consumer;
      }

  clear-Holds :
      (m : Machine A)
      → m.queue.tail ≢ m.queue.head
      → Holds m
      → Holds (record m { consumer = cleared })
  clear-Holds m ne v = record {
    items = v.items;
    slots = v.slots;
    head = v.head;
    tail = v.tail;
    room = v.room;
    size = v.size;
    fifo = v.fifo;
    producer = v.producer;
    consumer =
        tail_ne_head capacity m.queue.tail (length v.items) v.tail v.room
          (subst (λ h. m.queue.tail ≢ h) v.head ne);
  }

  pub first_item :
      (buffer items : List A) (i : ℕ)
      → 0 < length items
      → Slots capacity buffer i items
      → (y : A) × (rest : List A) × (items ≡ y ∷ rest) × (get_elem? buffer i ≡ some y)
  first_item buffer [] i h s = absurd (omega arith)
  first_item buffer (y ∷ rest) i h s = (y, rest, refl, s.0)

  read-Holds :
      (m : Machine A) (x : A)
      → m.consumer ≡ cleared
      → get_elem? m.queue.buffer m.queue.tail ≡ some x
      → Holds m
      → Holds (record m { consumer = taken x })
  read-Holds m x p e v =
      let (y, rest, split, found) =
        first_item m.queue.buffer v.items m.queue.tail (subst (ConsumerKnows v.items) p v.consumer)
          v.slots in
      let same : y ≡ x = cc (found, e) in
      record {
        items = v.items;
        slots = v.slots;
        head = v.head;
        tail = v.tail;
        room = v.room;
        size = v.size;
        fifo = v.fifo;
        producer = v.producer;
        consumer = (rest, split ∙ ap (λ z. z ∷ rest) same);
      }

  ProducerKnows-tail :
      (m : Machine A) (t : ℕ) (x : A) (rest : List A) (p : Producer A)
      → ProducerKnows m (x ∷ rest) p
      → ProducerKnows
          (record m {
            queue = record (m.queue) { tail = t };
            consumer = waiting;
            popped = m.popped ++ (x ∷ []);
          })
          rest
          p
  ProducerKnows-tail m t x rest resting k = tt
  ProducerKnows-tail m t x rest (admitted y) k = omega (arith, k)
  ProducerKnows-tail m t x rest (written y) k = (omega (arith, k.0), k.1)

  release-Holds :
      (m : Machine A) (x : A)
      → m.consumer ≡ taken x
      → Holds m
      → Holds (record m {
        queue = record (m.queue) { tail = masked_next capacity m.queue.tail };
        consumer = waiting;
        popped = m.popped ++ (x ∷ []);
      })
  release-Holds m x p v =
      let (rest, split) = subst (ConsumerKnows v.items) p v.consumer in
      record {
        items = rest;
        slots = (subst (Slots capacity m.queue.buffer m.queue.tail) split v.slots).1;
        head =
            v.head
            ∙ ap (λ l. (m.queue.tail + length l) % capacity) split
            ∙ next_tail capacity m.queue.tail (length rest);
        tail = mod_below (m.queue.tail + 1) capacity (omega (arith, v.tail));
        room = omega (arith, v.room, ap length split);
        size = v.size;
        fifo = v.fifo ∙ ap (◌++◌ m.popped) split ∙ sym (append_assoc m.popped (x ∷ []) rest);
        producer =
            ProducerKnows-tail m (masked_next capacity m.queue.tail) x rest m.producer
              (subst (λ l. ProducerKnows m l m.producer) split v.producer);
        consumer = tt;
      }

  Step-Holds : (m n : Machine A) → Step capacity m n → Holds m → Holds n
  Step-Holds m n (admit x p ne e) v = subst Holds (sym e) (admit-Holds m x p ne v)
  Step-Holds m n (write x p e) v = subst Holds (sym e) (write-Holds m x p v)
  Step-Holds m n (publish x p e) v = subst Holds (sym e) (publish-Holds m x p v)
  Step-Holds m n (clear p ne e) v = subst Holds (sym e) (clear-Holds m ne v)
  Step-Holds m n (read x p f e) v = subst Holds (sym e) (read-Holds m x p f v)
  Step-Holds m n (release x p e) v = subst Holds (sym e) (release-Holds m x p v)

  pub Reach-Holds : {m n : Machine A} → Holds m → Reach capacity m n → Holds n
  Reach-Holds v here = v
  Reach-Holds v (next {n = k} {o = o} r st) = Step-Holds k o st (Reach-Holds v r)

  pub start-Holds :
      (buffer : List A) → length buffer ≡ capacity → 0 < capacity → Holds (start buffer)
  start-Holds buffer e pos = record {
    items = [];
    slots = tt;
    head = sym (mod-eq_of_lt pos) ∙ ap (λ k. k % capacity) (omega arith);
    tail = pos;
    room = pos;
    size = e;
    fifo = refl;
    producer = tt;
    consumer = tt;
  }
