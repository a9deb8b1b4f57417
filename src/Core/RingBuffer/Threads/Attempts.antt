-- ===== src/Core/RingBuffer/Threads/Attempts.antt =====
-- What a producer does before it claims a slot keeps what holds.
use native.Mathlib.Nat.{mod-add-mod}
use real_time_market_data_fe.Base.{
  ℕ, ◌+◌, ◌%◌, ◌<◌, ◌≤◌, ◌≡◌, ◌≢◌, ◌∙◌, refl, sym, ap, subst, get_elem?, set, inl, inr, Option,
  none, some, arith, length,
}
use real_time_market_data_fe.Core.RingBuffer.{masked_next}
use real_time_market_data_fe.Core.RingBuffer.Threads.{
  Producer, resting, claimed, written, Machine, looking, tested,
}
use real_time_market_data_fe.Core.RingBuffer.Threads.Invariant.{
  Holds, Apart-set, item_of, room_left, get_elem?-set_cases, mod_near, sight_of, Loaded-set,
  Roomy-set,
}
use real_time_market_data_fe.Core.RingBuffer.Threads.Producers.{nothing, unseen, untested}

abbrev step_of : {A : Type 0} → Producer A → ℕ
step_of resting = 0
step_of (looking x h seen) = 1
step_of (tested x h seen) = 2
step_of (claimed x slot) = 3
step_of (written x slot) = 4

abbrev sight_or : Option (ℕ × ℕ) → ℕ × ℕ
sight_or none = (0, 0)
sight_or (some s) = s

module _ {A : Type 0} (capacity : ℕ) where
  -- What a producer does before it claims a slot writes nothing that the others read.
  pub before-Holds :
      (m : Machine A) (i : ℕ) (r : Producer A) (v : Holds capacity m)
      → item_of r ≡ none
      → ((h seen : ℕ)
          → sight_of r ≡ some (h, seen)
          → (h ≡ seen % capacity) × (seen ≤ length m.pushed))
      → ((x : A) (h seen : ℕ) → tested x h seen ≡ r → seen + 1 < v.takes + capacity)
      → Holds capacity (record m { producers = set m.producers i r })
  before-Holds m i r v e sees room = record {
    commits = v.commits;
    takes = v.takes;
    consumer = v.consumer;
    rest = v.rest;
    head = v.head;
    committed = v.committed;
    tail = v.tail;
    taken = v.taken;
    ordered = v.ordered;
    room = v.room;
    single = v.single;
    knows = v.knows;
    size = v.size;
    fifo = v.fifo;
    items = v.items;
    owned = λ j q y slot at it. elim (get_elem?-set_cases m.producers i j r q at) [
      | inl (ej, eq) ↦ absurd (nothing r y slot e (ap item_of (sym eq) ∙ it))
      | inr l ↦ v.owned j q y slot l.1 it
    ];
    stored = λ j y slot at. elim (get_elem?-set_cases m.producers i j r (written y slot) at) [
      | inl (ej, eq) ↦ absurd (nothing r y slot e (ap item_of (sym eq)))
      | inr l ↦ v.stored j y slot l.1
    ];
    apart =
        Apart-set m.producers i r v.apart
          (λ j q y z s s' ne at it mine. absurd (nothing r y s e mine));
    loaded =
        Loaded-set capacity (length m.pushed) (length m.pushed) m.producers i r v.loaded
          (omega arith) sees;
    roomy = Roomy-set capacity v.takes m.producers i r v.roomy room;
  }

  pub load-Holds :
      (m : Machine A) (i : ℕ) (x : A)
      → Holds capacity m
      → Holds capacity
          (record m { producers = set m.producers i (looking x m.ring.head (length m.pushed)) })
  load-Holds m i x v =
      let r : Producer A = looking x m.ring.head (length m.pushed) in
      before-Holds m i r v refl
        (λ h seen e.
          let same : (m.ring.head ≡ h) × (length m.pushed ≡ seen) =
            (ap (λ s. (sight_or s).0) e, ap (λ s. (sight_or s).1) e) in
          (sym same.0 ∙ v.head ∙ ap (λ n. n % capacity) same.1, omega (arith, same.1)))
        (λ y h seen e. absurd (omega (arith, ap step_of e)))

  pub rest-Holds :
      (m : Machine A) (i : ℕ)
      → Holds capacity m
      → Holds capacity (record m { producers = set m.producers i resting })
  rest-Holds m i v =
      before-Holds m i resting v refl (λ h seen e. absurd (unseen {A = A} resting h seen refl e))
        (λ y h seen e. absurd (untested resting y h seen refl e))

  pub find_room-Holds :
      (m : Machine A) (i : ℕ) (x : A) (h seen : ℕ)
      → get_elem? m.producers i ≡ some (looking x h seen)
      → masked_next capacity h ≢ m.ring.tail
      → Holds capacity m
      → Holds capacity (record m { producers = set m.producers i (tested x h seen) })
  find_room-Holds m i x h seen p ne v =
      let (eh, low) = v.loaded i (looking x h seen) h seen p refl in
      let room : seen + 1 < v.takes + capacity =
        room_left capacity seen v.takes (omega (arith, v.room, low))
          (λ z. ne (ap (masked_next capacity) eh ∙ mod-add-mod seen capacity 1 ∙ z ∙ sym v.tail)) in
      before-Holds m i (tested x h seen) v refl (λ k s e. v.loaded i (looking x h seen) k s p e)
        (λ y k s e.
          subst (λ n. n + 1 < v.takes + capacity) (sym (ap (λ q. (sight_or (sight_of q)).1) e))
            room)

  -- A prompt claim is of the slot that the head is at, and leaves room.
  pub prompt_room :
      (m : Machine A) (i : ℕ) (x : A) (h seen : ℕ)
      → 0 < capacity
      → get_elem? m.producers i ≡ some (tested x h seen)
      → h ≡ m.ring.head
      → length m.pushed < seen + capacity
      → (v : Holds capacity m) → length m.pushed + 1 < v.takes + capacity
  prompt_room m i x h seen pos p still prompt v =
      let (eh, low) = v.loaded i (tested x h seen) h seen p refl in
      let now : seen ≡ length m.pushed =
        mod_near capacity seen (length m.pushed) pos low prompt (sym eh ∙ still ∙ v.head) in
      omega (arith, now, v.roomy i x h seen p)
