-- ===== src/Core/RingBuffer/Threads/Producers.antt =====
-- The producers' steps keep what holds.
use native.Mathlib.Nat.{mod-add-mod, mod-lt}
use real_time_market_data_fe.Base.{
  ℕ, suc, ◌+◌, ◌%◌, ◌<◌, ◌≤◌, ◌≡◌, ◌∙◌, refl, sym, ap, subst, get_elem?, set, get_elem?-set_self,
  get_elem?-set_ne, length-set, inl, inr, Option, none, some, [], ◌∷◌, ◌++◌, append_assoc, arith,
  length, length-append,
}
use real_time_market_data_fe.Core.RingBuffer.{masked_next}
use real_time_market_data_fe.Core.RingBuffer.Threads.{
  Consumer, waiting, taking, Producer, resting, claimed, written, Machine, looking, tested, peeking,
  assured,
}
use real_time_market_data_fe.Core.RingBuffer.Threads.Invariant.{
  Holds, ConsumerKnows, Apart-set, InFlight, item_of, mod_apart, get_elem?-set_cases,
  get_elem?-append_left, get_elem?-snoc, sight_of, Loaded-set, Roomy-set,
}

abbrev pub stage : {A : Type 0} → Producer A → ℕ
stage resting = 0
stage (looking x h seen) = 0
stage (tested x h seen) = 0
stage (claimed x slot) = 1
stage (written x slot) = 2

abbrev pub slot_or : {A : Type 0} → Option (A × ℕ) → ℕ
slot_or none = 0
slot_or (some h) = h.1

abbrev item_or : {A : Type 0} → A → Option (A × ℕ) → A
item_or x none = x
item_or x (some h) = h.0

pub nothing :
    {A : Type 0} (r : Producer A) (y : A) (slot : ℕ)
    → item_of r ≡ none
    → item_of r ≡ some (y, slot)
    → ⊥
nothing r y slot e h = ground (arith, sym e ∙ h)

pub unseen :
    {A : Type 0} (r : Producer A) (h seen : ℕ) → sight_of r ≡ none → sight_of r ≡ some (h, seen) → ⊥
unseen r h seen e e' = ground (arith, sym e ∙ e')

pub untested :
    {A : Type 0} (r : Producer A) (x : A) (h seen : ℕ) → sight_of r ≡ none → tested x h seen ≡ r → ⊥
untested r x h seen e e' = unseen r h seen e (ap sight_of (sym e'))

module _ {A : Type 0} (capacity : ℕ) where
  -- The consumer is one item behind its claims at most.
  pub popped_near : (m : Machine A) → (v : Holds capacity m) → v.takes ≤ suc (length m.popped)
  popped_near m v = near v.consumer v.knows
    where
      near :
          (c : Consumer)
          → ConsumerKnows capacity (length m.popped) v.takes v.commits c
          → v.takes ≤ suc (length m.popped)
      near waiting k = omega (arith, k)
      near (peeking t) k = omega (arith, k.0)
      near (assured t) k = omega (arith, k.0)
      near (taking slot) k = omega (arith, k.0)

  -- The machine after producer `i` has claimed a slot for `x`.
  abbrev pub claiming : Machine A → ℕ → A → Machine A
  claiming m i x = record m {
    ring = record (m.ring) { head = masked_next capacity m.ring.head };
    producers = set m.producers i (claimed x m.ring.head);
    pushed = m.pushed ++ (x ∷ []);
  }

  InFlight-claiming :
      (m : Machine A) (k i : ℕ) (x y : A) (slot : ℕ)
      → InFlight capacity m k y slot
      → InFlight capacity (claiming m i x) k y slot
  InFlight-claiming m k i x y slot (q, (e, (low, (high, at)))) = (
    q,
    (
      e,
      (
        low,
        (
          omega (arith, length-append m.pushed (x ∷ [])),
          get_elem?-append_left m.pushed (x ∷ []) q high ∙ at,
        ),
      ),
    ),
  )

  pub claim-Holds :
      (m : Machine A) (i : ℕ) (x : A)
      → 0 < capacity
      → (v : Holds capacity m) → length m.pushed + 1 < v.takes + capacity
      → Holds capacity (claiming m i x)
  claim-Holds m i x pos v left =
      let more : length (m.pushed ++ (x ∷ [])) ≡ length m.pushed + 1 =
        length-append m.pushed (x ∷ []) in
      let first : (y : A) (slot : ℕ)
          → item_of (claimed x m.ring.head) ≡ some (y, slot)
          → InFlight capacity (claiming m i x) v.commits y slot =
        λ y slot e. (
          length m.pushed,
          (
            sym (ap slot_or e) ∙ v.head,
            (
              v.ordered,
              (omega (arith, more), get_elem?-snoc m.pushed x ∙ ap some (ap (item_or x) e)),
            ),
          ),
        ) in
      let next_head : masked_next capacity m.ring.head ≡ (length m.pushed + 1) % capacity =
        ap (masked_next capacity) v.head ∙ mod-add-mod (length m.pushed) capacity 1 in
      record {
        commits = v.commits;
        takes = v.takes;
        consumer = v.consumer;
        rest = v.rest ++ (x ∷ []);
        head = next_head ∙ ap (λ n. n % capacity) (sym more);
        committed = v.committed;
        tail = v.tail;
        taken = v.taken;
        ordered = omega (arith, v.ordered, more);
        room = subst (λ n. n < v.takes + capacity) (sym more) left;
        single = v.single;
        knows = v.knows;
        size = v.size;
        fifo = ap (λ l. l ++ (x ∷ [])) v.fifo ∙ append_assoc m.popped v.rest (x ∷ []);
        items = λ q y low high at.
            v.items q y low high
              (sym (get_elem?-append_left m.pushed (x ∷ []) q (omega (arith, v.ordered))) ∙ at);
        owned = λ j r y slot at it.
            elim (get_elem?-set_cases m.producers i j (claimed x m.ring.head) r at) [
              | inl (ej, er) ↦ first y slot (ap item_of (sym er) ∙ it)
              | inr l ↦ InFlight-claiming m v.commits i x y slot (v.owned j r y slot l.1 it)
            ];
        stored = λ j y slot at.
            elim (get_elem?-set_cases m.producers i j (claimed x m.ring.head) (written y slot) at) [
              | inl (ej, er) ↦ absurd (omega (arith, ap stage er))
              | inr l ↦ v.stored j y slot l.1
            ];
        apart =
            Apart-set m.producers i (claimed x m.ring.head) v.apart
              (λ j q y z slot slot' ne' at it mine. λ w.
                let (n, (es, (low, (high, e)))) = v.owned j q z slot' at it in
                mod_apart capacity n (length m.pushed) pos high (omega (arith, v.room, v.taken))
                  (sym es ∙ sym w ∙ sym (ap slot_or mine) ∙ v.head));
        loaded =
            Loaded-set capacity (length m.pushed) (length (m.pushed ++ (x ∷ []))) m.producers i
              (claimed x m.ring.head) v.loaded (omega (arith, more))
              (λ h seen e. absurd (unseen (claimed x m.ring.head) h seen refl e));
        roomy =
            Roomy-set capacity v.takes m.producers i (claimed x m.ring.head) v.roomy
              (λ y h seen e. absurd (untested (claimed x m.ring.head) y h seen refl e));
      }

  -- The machine after producer `i` has written its item into its slot.
  abbrev pub writing : Machine A → ℕ → A → ℕ → Machine A
  writing m i x slot = record m {
    ring = record (m.ring) { buffer = set m.ring.buffer slot x };
    producers = set m.producers i (written x slot);
  }

  pub write-Holds :
      (m : Machine A) (i : ℕ) (x : A) (slot : ℕ)
      → 0 < capacity
      → get_elem? m.producers i ≡ some (claimed x slot)
      → Holds capacity m
      → Holds capacity (writing m i x slot)
  write-Holds m i x slot pos p v =
      let (n, (es, (low, (high, e)))) = v.owned i (claimed x slot) x slot p refl in
      let inside : slot < length m.ring.buffer =
        subst (λ k. slot < k) (sym v.size) (subst (λ k. k < capacity) (sym es) (mod-lt n pos)) in
      record {
        commits = v.commits;
        takes = v.takes;
        consumer = v.consumer;
        rest = v.rest;
        head = v.head;
        committed = v.committed;
        tail = v.tail;
        taken = v.taken;
        ordered = v.ordered;
        room = v.room;
        single = v.single;
        knows = v.knows;
        size = length-set m.ring.buffer slot x ∙ v.size;
        fifo = v.fifo;
        items = λ q y from below at.
            get_elem?-set_ne m.ring.buffer x (λ w.
              mod_apart capacity q n pos (omega arith) (omega (arith, v.room, popped_near m v))
                (sym (sym es ∙ w)))
            ∙ v.items q y from below at;
        owned = λ j r y s at it. elim (get_elem?-set_cases m.producers i j (written x slot) r at) [
          | inl (ej, er) ↦ v.owned i (claimed x slot) y s p (ap item_of (sym er) ∙ it)
          | inr l ↦ v.owned j r y s l.1 it
        ];
        stored = λ j y s at.
            elim (get_elem?-set_cases m.producers i j (written x slot) (written y s) at) [
              | inl (ej, er) ↦
                  subst (λ k. get_elem? (set m.ring.buffer slot x) k ≡ some y)
                    (sym (ap slot_or (ap item_of er)))
                    (get_elem?-set_self m.ring.buffer slot x inside
                      ∙ ap some (sym (ap (item_or x) (ap item_of er))))
              | inr l ↦
                  get_elem?-set_ne m.ring.buffer x
                    (v.apart i j (claimed x slot) (written y s) x y slot s l.0 p l.1 refl refl)
                  ∙ v.stored j y s l.1
            ];
        apart =
            Apart-set m.producers i (written x slot) v.apart (λ j q y z s s' ne at it mine.
              v.apart i j (claimed x slot) q y z s s' ne p at mine it);
        loaded =
            Loaded-set capacity (length m.pushed) (length m.pushed) m.producers i (written x slot)
              v.loaded (omega arith) (λ h seen e. absurd (unseen (written x slot) h seen refl e));
        roomy =
            Roomy-set capacity v.takes m.producers i (written x slot) v.roomy
              (λ y h seen e. absurd (untested (written x slot) y h seen refl e));
      }
