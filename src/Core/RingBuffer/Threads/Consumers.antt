-- ===== src/Core/RingBuffer/Threads/Consumers.antt =====
-- The consumer's steps keep what holds.
use native.Mathlib.Nat.{mod-add-mod}
use real_time_market_data_fe.Base.{
  ℕ, zero, suc, ◌+◌, ◌%◌, ◌<◌, ◌≤◌, ◌≡◌, ◌≢◌, ◌∙◌, refl, sym, ap, subst, dec_lt, get_elem?, set,
  some, List, [], ◌∷◌, ◌++◌, append-nil, append_assoc, arith, length, length-append,
}
use real_time_market_data_fe.Core.RingBuffer.{masked_next}
use real_time_market_data_fe.Core.RingBuffer.Threads.{waiting, taking, Machine, assured, Consumer}
use real_time_market_data_fe.Core.RingBuffer.Threads.Invariant.{Holds, ConsumerKnows}

-- The entry of a list of one.
sole : {A : Type 0} (x y : A) (j : ℕ) → get_elem? (x ∷ []) j ≡ some y → (j ≡ 0) × (x ≡ y)
sole x y zero e = (refl, ground (arith, e))
sole x y (suc j) e = ground (arith, e)

get_elem?-append_length :
    {A : Type 0} (xs ys : List A) (y : A) → get_elem? (xs ++ (y ∷ ys)) (length xs) ≡ some y
get_elem?-append_length [] ys y = refl
get_elem?-append_length (x ∷ xs) ys y = get_elem?-append_length xs ys y

-- A count that is not beyond the other one, and stands at another slot.
pub below : (c a b : ℕ) → a ≤ b → a % c ≢ b % c → a < b
below c a b le ne = elim (dec_lt a b) [
  | yes lt ↦ lt
  | no n ↦ absurd (ne (ap (λ k. k % c) (omega arith)))
]

module _ {A : Type 0} (capacity : ℕ) where
  -- What the consumer does before it claims a slot writes nothing that the others read.
  pub consume-Holds :
      (m : Machine A) (j : ℕ) (c c' : Consumer) (v : Holds capacity m)
      → get_elem? m.consumers j ≡ some c
      → (ConsumerKnows capacity (length m.popped) v.takes v.commits c
          → ConsumerKnows capacity (length m.popped) v.takes v.commits c')
      → Holds capacity (record m { consumers = set m.consumers j c' })
  consume-Holds m j c c' v p learns =
      let (first, same) = sole v.consumer c j (sym (ap (λ l. get_elem? l j) v.single) ∙ p) in
      let knows = subst (ConsumerKnows capacity (length m.popped) v.takes v.commits) same v.knows in
      record {
        commits = v.commits;
        takes = v.takes;
        consumer = c';
        rest = v.rest;
        head = v.head;
        committed = v.committed;
        tail = v.tail;
        taken = v.taken;
        ordered = v.ordered;
        room = v.room;
        single = ap (λ l. set l j c') v.single ∙ ap (λ k. set (v.consumer ∷ []) k c') first;
        knows = learns knows;
        size = v.size;
        fifo = v.fifo;
        items = v.items;
        owned = v.owned;
        stored = v.stored;
        apart = v.apart;
        loaded = v.loaded;
        roomy = v.roomy;
      }

  pub advance-Holds :
      (m : Machine A) (j t : ℕ)
      → get_elem? m.consumers j ≡ some (assured t)
      → Holds capacity m
      → Holds capacity (record m {
        ring = record (m.ring) { tail = masked_next capacity t };
        consumers = set m.consumers j (taking t);
      })
  advance-Holds m j t c v =
      let (first, same) =
        sole v.consumer (assured t) j (sym (ap (λ l. get_elem? l j) v.single) ∙ c) in
      let (even, place, found) =
        subst (ConsumerKnows capacity (length m.popped) v.takes v.commits) same v.knows in
      record {
        commits = v.commits;
        takes = v.takes + 1;
        consumer = taking t;
        rest = v.rest;
        head = v.head;
        committed = v.committed;
        tail = ap (masked_next capacity) place ∙ mod-add-mod v.takes capacity 1;
        taken = omega (arith, found);
        ordered = v.ordered;
        room = omega (arith, v.room);
        single =
            ap (λ l. set l j (taking t)) v.single
            ∙ ap (λ k. set (v.consumer ∷ []) k (taking t)) first;
        knows = (omega (arith, even), place ∙ ap (λ k. k % capacity) even);
        size = v.size;
        fifo = v.fifo;
        items = v.items;
        owned = v.owned;
        stored = v.stored;
        apart = v.apart;
        loaded = v.loaded;
        roomy = λ i x h seen at. omega (arith, v.roomy i x h seen at);
      }

  -- What is left holds the item that the consumer reads.
  front_of :
      (m : Machine A) (v : Holds capacity m) (x : A) (rest : List A)
      → v.takes ≡ suc (length m.popped)
      → get_elem? m.ring.buffer (length m.popped % capacity) ≡ some x
      → m.pushed ≡ m.popped ++ rest
      → (tail : List A) × (rest ≡ x ∷ tail)
  front_of m v x [] e at f =
      absurd (omega (arith, e, v.taken, v.ordered, ap length f, ap length (append-nil m.popped)))
  front_of m v x (y ∷ rest) e at f =
      let there : get_elem? m.pushed (length m.popped) ≡ some y =
        ap (λ l. get_elem? l (length m.popped)) f ∙ get_elem?-append_length m.popped rest y in
      let stored = v.items (length m.popped) y (omega arith) (omega (arith, e, v.taken)) there in
      let same : y ≡ x = ground (arith, sym stored ∙ at) in (rest, ap (λ z. z ∷ rest) same)

  pub read-Holds :
      (m : Machine A) (j slot : ℕ) (x : A)
      → get_elem? m.consumers j ≡ some (taking slot)
      → get_elem? m.ring.buffer slot ≡ some x
      → Holds capacity m
      → Holds capacity
          (record m { consumers = set m.consumers j waiting; popped = m.popped ++ (x ∷ []) })
  read-Holds m j slot x c at v =
      let (first, busy) =
        sole v.consumer (taking slot) j (sym (ap (λ l. get_elem? l j) v.single) ∙ c) in
      let (one, place) =
        subst (ConsumerKnows capacity (length m.popped) v.takes v.commits) busy v.knows in
      let (tail, e) =
        front_of m v x v.rest one (ap (get_elem? m.ring.buffer) (sym place) ∙ at) v.fifo in
      let more : length (m.popped ++ (x ∷ [])) ≡ length m.popped + 1 =
        length-append m.popped (x ∷ []) in
      record {
        commits = v.commits;
        takes = v.takes;
        consumer = waiting;
        rest = tail;
        head = v.head;
        committed = v.committed;
        tail = v.tail;
        taken = v.taken;
        ordered = v.ordered;
        room = v.room;
        single =
            ap (λ l. set l j waiting) v.single ∙ ap (λ k. set (v.consumer ∷ []) k waiting) first;
        knows = omega (arith, one, more);
        size = v.size;
        fifo = v.fifo ∙ ap (λ l. m.popped ++ l) e ∙ sym (append_assoc m.popped (x ∷ []) tail);
        items = λ q y from below' at'. v.items q y (omega (arith, more)) below' at';
        owned = v.owned;
        stored = v.stored;
        apart = v.apart;
        loaded = v.loaded;
        roomy = v.roomy;
      }
