-- ===== src/Core/RingBuffer/Threads/Commits.antt =====
-- A producer's commit keeps what holds.
use native.Mathlib.Nat.{mod-add-mod}
use real_time_market_data_fe.Base.{
  ℕ, ◌+◌, ◌%◌, ◌<◌, ◌≡◌, ◌∙◌, refl, sym, ap, dec_lt, get_elem?, set, inl, inr, some, arith, length,
}
use real_time_market_data_fe.Core.RingBuffer.{masked_next}
use real_time_market_data_fe.Core.RingBuffer.Threads.{resting, written, Machine}
use real_time_market_data_fe.Core.RingBuffer.Threads.Invariant.{
  Holds, Apart-set, mod_near, get_elem?-set_cases, ConsumerKnows-commit, item_of, Loaded-set,
  Roomy-set,
}
use real_time_market_data_fe.Core.RingBuffer.Threads.Producers.{stage, nothing, unseen, untested}

module _ {A : Type 0} (capacity : ℕ) where
  -- The machine after producer `i` has committed its slot.
  abbrev pub publishing : Machine A → ℕ → ℕ → Machine A
  publishing m i slot = record m {
    ring = record (m.ring) { committed = masked_next capacity slot };
    producers = set m.producers i resting;
  }

  pub publish-Holds :
      (m : Machine A) (i : ℕ) (x : A) (slot : ℕ)
      → 0 < capacity
      → get_elem? m.producers i ≡ some (written x slot)
      → m.ring.committed ≡ slot
      → Holds capacity m
      → Holds capacity (publishing m i slot)
  publish-Holds m i x slot pos p turn v =
      let (n, (es, (low, (high, e)))) = v.owned i (written x slot) x slot p refl in
      let first : v.commits ≡ n =
        mod_near capacity v.commits n pos low (omega (arith, v.room, v.taken))
          (sym v.committed ∙ turn ∙ es) in
      let here : slot ≡ v.commits % capacity = sym turn ∙ v.committed in
      record {
        commits = v.commits + 1;
        takes = v.takes;
        consumer = v.consumer;
        rest = v.rest;
        head = v.head;
        committed = ap (masked_next capacity) here ∙ mod-add-mod v.commits capacity 1;
        tail = v.tail;
        taken = omega (arith, v.taken);
        ordered = omega arith;
        room = v.room;
        single = v.single;
        knows =
            ConsumerKnows-commit capacity (length m.popped) v.takes v.commits v.consumer v.knows;
        size = v.size;
        fifo = v.fifo;
        items = λ q y from below at. elim (dec_lt q v.commits) [
          | yes lt ↦ v.items q y from lt at
          | no old ↦
              let now : q ≡ v.commits = omega arith in
              ap (get_elem? m.ring.buffer) (ap (λ k. k % capacity) now ∙ sym here)
              ∙ v.stored i x slot p
              ∙ sym e
              ∙ ap (get_elem? m.pushed) (sym first ∙ sym now)
              ∙ at
        ];
        owned = λ j r y s at it. elim (get_elem?-set_cases m.producers i j resting r at) [
          | inl (ej, er) ↦ absurd (nothing r y s (ap item_of er) it)
          | inr l ↦
              let (q, (eq, (low', (high', e')))) = v.owned j r y s l.1 it in
              elim (dec_lt v.commits q) [
                | yes lt ↦ (q, (eq, (omega arith, (high', e'))))
                | no old ↦
                    let now : q ≡ v.commits = omega arith in
                    absurd (
                      v.apart i j (written x slot) r x y slot s l.0 p l.1 refl it
                        (here ∙ ap (λ k. k % capacity) (sym now) ∙ sym eq))
              ]
        ];
        stored = λ j y s at. elim (get_elem?-set_cases m.producers i j resting (written y s) at) [
          | inl (ej, er) ↦ absurd (omega (arith, ap stage er))
          | inr l ↦ v.stored j y s l.1
        ];
        apart =
            Apart-set m.producers i resting v.apart
              (λ j q y z s s' ne at it mine. absurd (nothing resting y s refl mine));
        loaded =
            Loaded-set capacity (length m.pushed) (length m.pushed) m.producers i (resting) v.loaded
              (omega arith) (λ h seen e. absurd (unseen {A = A} resting h seen refl e));
        roomy =
            Roomy-set capacity v.takes m.producers i (resting) v.roomy
              (λ y h seen e. absurd (untested resting y h seen refl e));
      }
