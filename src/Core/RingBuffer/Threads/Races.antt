-- ===== src/Core/RingBuffer/Threads/Races.antt =====
-- Three interleavings in which an item is read at the wrong moment or lost.
use real_time_market_data_fe.Base.{
  get_elem?, set, ℕ, ◌≡◌, ◌≢◌, refl, sym, some, List, [], ◌∷◌, ◌++◌, arith, zero, suc, ap, length,
  get_elem?-set_self,
}
use real_time_market_data_fe.Core.RingBuffer.{spsc, mpmc, masked_next, Policy, mpsc, readable_end}
use real_time_market_data_fe.Core.RingBuffer.Threads.{
  resting, claimed, waiting, Machine, claim, write, publish, advance, read, Reach, here, next,
  start, taking, Producer, Consumer, looking, tested, peeking, assured, load_head, find_room,
  load_tail, find_item, HeadIsStill, TailIsStill,
}
use real_time_market_data_fe.Core.RingBuffer.Threads.Invariant.{get_elem?-lt}

set_first :
    {A : Type 0} (xs : List A) (x y : A)
    → get_elem? xs 0 ≡ some x
    → get_elem? (set xs 0 y) 0 ≡ some y
set_first [] x y e = ground (arith, e)
set_first (z ∷ xs) x y e = refl

set_twice : {A : Type 0} (xs : List A) (i : ℕ) (x y : A) → set (set xs i x) i y ≡ set xs i y
set_twice [] i x y = refl
set_twice (z ∷ xs) zero x y = refl
set_twice (z ∷ xs) (suc i) x y = ap (λ l. z ∷ l) (set_twice xs i x y)

module _ {A : Type 0} (capacity : ℕ) (policy : Policy) where
  -- A push as far as the claim, without interruption.
  claims :
      {l : Machine A} (m : Machine A) (i : ℕ) (x : A)
      → Reach capacity policy l m
      → get_elem? m.producers i ≡ some resting
      → masked_next capacity m.ring.head ≢ m.ring.tail
      → HeadIsStill policy m.ring.head m.ring
      → Reach capacity policy l (record m {
        ring = record (m.ring) { head = masked_next capacity m.ring.head };
        producers = set m.producers i (claimed x m.ring.head);
        pushed = m.pushed ++ (x ∷ []);
      })
  claims m i x r p room still =
      let inside = get_elem?-lt m.producers i resting p in
      let h = m.ring.head in
      let seen = length m.pushed in
      let now : (q : Producer A) → get_elem? (set m.producers i q) i ≡ some q =
        λ q. get_elem?-set_self m.producers i q inside in
      let loaded = next r (load_head i x p refl) in
      let found = next loaded (
        find_room i x h seen (now (looking x h seen)) room (
          ap (λ ps. record m { producers = ps })
            (sym (set_twice m.producers i (looking x h seen) (tested x h seen))))) in
      next found (
        claim i x h seen (now (tested x h seen)) still (
          ap
            (λ ps. record m {
              ring = record (m.ring) { head = masked_next capacity h };
              producers = ps;
              pushed = m.pushed ++ (x ∷ []);
            })
            (sym (set_twice m.producers i (tested x h seen) (claimed x h)))))

  -- A pop as far as the claim, without interruption.
  takes :
      {l : Machine A} (m : Machine A) (j : ℕ)
      → Reach capacity policy l m
      → get_elem? m.consumers j ≡ some waiting
      → m.ring.tail ≢ readable_end policy m.ring
      → TailIsStill policy m.ring.tail m.ring
      → Reach capacity policy l (record m {
        ring = record (m.ring) { tail = masked_next capacity m.ring.tail };
        consumers = set m.consumers j (taking m.ring.tail);
      })
  takes m j r p some_item still =
      let inside = get_elem?-lt m.consumers j waiting p in
      let t = m.ring.tail in
      let now : (q : Consumer) → get_elem? (set m.consumers j q) j ≡ some q =
        λ q. get_elem?-set_self m.consumers j q inside in
      let loaded = next r (load_tail j p refl) in
      let found = next loaded (
        find_item j t (now (peeking t)) some_item (
          ap (λ cs. record m { consumers = cs })
            (sym (set_twice m.consumers j (peeking t) (assured t))))) in
      next found (
        advance j t (now (assured t)) still (
          ap
            (λ cs. record m {
              ring = record (m.ring) { tail = masked_next capacity t };
              consumers = cs;
            })
            (sym (set_twice m.consumers j (assured t) (taking t)))))

module _ {A : Type 0} (capacity : ℕ) where
  -- Producer 0 has claimed a slot for `a` and not written it, and consumer 0 has read `old` there.
  abbrev pub unwritten : Machine A → A → A → Machine A
  unwritten m a old = record m {
    ring = record (m.ring) {
      head = masked_next capacity m.ring.head;
      tail = masked_next capacity m.ring.tail;
    };
    producers = set m.producers 0 (claimed a m.ring.head);
    consumers = set (set m.consumers 0 (taking m.ring.tail)) 0 waiting;
    pushed = m.pushed ++ (a ∷ []);
    popped = m.popped ++ (old ∷ []);
  }

  -- Under the single-producer policy, where the ring is empty and has room, and the producer and the
  -- consumer are at rest, the steps of a push and a pop can interleave so that the pop returns what
  -- the slot held before, ahead of the producer's write.
  pub Reach-unwritten :
      (m : Machine A) (a old : A)
      → get_elem? m.producers 0 ≡ some resting
      → get_elem? m.consumers 0 ≡ some waiting
      → m.ring.head ≡ m.ring.tail
      → masked_next capacity m.ring.head ≢ m.ring.tail
      → get_elem? m.ring.buffer m.ring.tail ≡ some old
      → Reach capacity spsc m (unwritten m a old)
  Reach-unwritten m a old p c empty room e =
      let m1 : Machine A = record m {
        ring = record (m.ring) { head = masked_next capacity m.ring.head };
        producers = set m.producers 0 (claimed a m.ring.head);
        pushed = m.pushed ++ (a ∷ []);
      } in
      next
        (takes capacity spsc m1 0 (claims capacity spsc m 0 a here p room tt) c (λ z. room (sym z))
          tt)
        (read 0 m.ring.tail old (set_first m.consumers waiting (taking m.ring.tail) c) e refl)

-- Two consumers: while one of them stands between its claim and its read, the producer comes round to
-- its slot, since the other one has moved the tail on.
module _ {A : Type 0} (old : A) (a b c : A) where
  abbrev overtaken : Machine A
  overtaken = record {
    ring = record { buffer = c ∷ b ∷ []; head = 1; tail = 0; committed = 1 };
    producers = resting ∷ [];
    consumers = waiting ∷ waiting ∷ [];
    pushed = a ∷ b ∷ c ∷ [];
    popped = b ∷ c ∷ [];
  }

  -- The state between two calls.
  abbrev between : List A → ℕ → ℕ → List Consumer → List A → List A → Machine A
  between buffer head tail cs pushed popped = record {
    ring = record { buffer = buffer; head = head; tail = tail; committed = head };
    producers = resting ∷ [];
    consumers = cs;
    pushed = pushed;
    popped = popped;
  }

  Reach-overtaken : Reach 2 mpmc (start (old ∷ old ∷ []) 1 2) overtaken
  Reach-overtaken =
      let m0 = start (old ∷ old ∷ []) 1 2 in
      let idle = waiting ∷ waiting ∷ [] in
      let busy = taking 0 ∷ waiting ∷ [] in
      let r1 =
        next (next (claims 2 mpmc m0 0 a here refl (omega arith) refl) (write 0 a 0 refl refl))
          (publish 0 a 0 refl refl refl) in
      let m1 = between (a ∷ old ∷ []) 1 0 idle (a ∷ []) [] in
      let r2 = takes 2 mpmc m1 0 r1 refl (omega arith) refl in
      let m2 = between (a ∷ old ∷ []) 1 1 busy (a ∷ []) [] in
      let r3 =
        next (next (claims 2 mpmc m2 0 b r2 refl (omega arith) refl) (write 0 b 1 refl refl))
          (publish 0 b 1 refl refl refl) in
      let m3 = between (a ∷ b ∷ []) 0 1 busy (a ∷ b ∷ []) [] in
      let r4 = next (takes 2 mpmc m3 1 r3 refl (omega arith) refl) (read 1 1 b refl refl refl) in
      let m4 = between (a ∷ b ∷ []) 0 0 busy (a ∷ b ∷ []) (b ∷ []) in
      let r5 =
        next (next (claims 2 mpmc m4 0 c r4 refl (omega arith) refl) (write 0 c 0 refl refl))
          (publish 0 c 0 refl refl refl) in
      next r5 (read 0 0 c refl refl refl)

-- Two producers: while one of them stands between its test and its exchange, the other one fills the
-- ring until the head is back at the same index; the exchange succeeds, and the ring looks empty.
module _ {A : Type 0} (old : A) (a b c : A) where
  abbrev emptied : Machine A
  emptied = record {
    ring = record { buffer = c ∷ b ∷ []; head = 1; tail = 1; committed = 1 };
    producers = resting ∷ resting ∷ [];
    consumers = waiting ∷ [];
    pushed = a ∷ b ∷ c ∷ [];
    popped = a ∷ [];
  }

  Reach-emptied : Reach 2 mpsc (start (old ∷ old ∷ []) 2 1) emptied
  Reach-emptied =
      let state : List A → ℕ → ℕ → List A → List A → Machine A = λ buffer head tail pushed popped.
        record {
          ring = record { buffer = buffer; head = head; tail = tail; committed = head };
          producers = tested c 0 0 ∷ resting ∷ [];
          consumers = waiting ∷ [];
          pushed = pushed;
          popped = popped;
        } in
      let r0 =
        next (next here (load_head 0 c refl refl)) (find_room 0 c 0 0 refl (omega arith) refl) in
      let r1 =
        next
          (next (claims 2 mpsc (state (old ∷ old ∷ []) 0 0 [] []) 1 a r0 refl (omega arith) refl)
            (write 1 a 0 refl refl))
          (publish 1 a 0 refl refl refl) in
      let r2 =
        next (takes 2 mpsc (state (a ∷ old ∷ []) 1 0 (a ∷ []) []) 0 r1 refl (omega arith) tt)
          (read 0 0 a refl refl refl) in
      let r3 =
        next
          (next
            (claims 2 mpsc (state (a ∷ old ∷ []) 1 1 (a ∷ []) (a ∷ [])) 1 b r2 refl (omega arith)
              refl)
            (write 1 b 1 refl refl))
          (publish 1 b 1 refl refl refl) in
      next (next (next r3 (claim 0 c 0 0 refl refl refl)) (write 0 c 0 refl refl))
        (publish 0 c 0 refl refl refl)
