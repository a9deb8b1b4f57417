-- ===== src/Core/RingBuffer/Threads/Safety.antt =====
-- What holds at every moment, and what follows for every interleaving.
use native.Mathlib.Nat.{mod-eq_of_lt}
use real_time_market_data_fe.Base.{
  ℕ, zero, suc, ◌+◌, ◌%◌, ◌<◌, ◌≤◌, ◌≡◌, ◌∙◌, refl, sym, ap, subst, get_elem?, set, replicate, some,
  List, [], ◌∷◌, ◌++◌, arith, length, drop-append_length, drop,
}
use real_time_market_data_fe.Core.RingBuffer.{mpsc, masked_next}
use real_time_market_data_fe.Core.RingBuffer.Threads.{
  waiting, resting, written, Machine, Step, claim, write, publish, advance, read, Reach, here, next,
  start, tested, claimed, peeking, assured, load_head, find_room, find_full, lose_head, load_tail,
  find_item, find_empty, lose_tail, PromptStep, IsPrompt,
}
use real_time_market_data_fe.Core.RingBuffer.Threads.Invariant.{Holds, item_of, sight_of}
use real_time_market_data_fe.Core.RingBuffer.Threads.Commits.{publish-Holds}
use real_time_market_data_fe.Core.RingBuffer.Threads.Producers.{
  stage, nothing, claim-Holds, write-Holds, popped_near, unseen, untested,
}
use real_time_market_data_fe.Core.RingBuffer.Threads.Attempts.{
  load-Holds, rest-Holds, find_room-Holds, prompt_room,
}
use real_time_market_data_fe.Core.RingBuffer.Threads.Consumers.{
  consume-Holds, advance-Holds, read-Holds, below,
}

replicate_entry : {A : Type 0} (n i : ℕ) (x y : A) → get_elem? (replicate n x) i ≡ some y → y ≡ x
replicate_entry zero i x y e = ground (arith, e)
replicate_entry (suc n) zero x y e = ground (arith, sym e)
replicate_entry (suc n) (suc i) x y e = replicate_entry n i x y e

module _ {A : Type 0} (capacity : ℕ) where
  abbrev claimed_at : Machine A → ℕ → A → ℕ → Machine A
  claimed_at m i x h = record m {
    ring = record (m.ring) { head = masked_next capacity h };
    producers = set m.producers i (claimed x h);
    pushed = m.pushed ++ (x ∷ []);
  }

  Step-Holds :
      (m n : Machine A)
      → 0 < capacity
      → (s : Step capacity mpsc m n) → PromptStep capacity mpsc s
      → Holds capacity m
      → Holds capacity n
  Step-Holds m n pos (load_head i x p e) q v =
      subst (Holds capacity) (sym e) (load-Holds capacity m i x v)
  Step-Holds m n pos (find_room i x h seen p ne e) q v =
      subst (Holds capacity) (sym e) (find_room-Holds capacity m i x h seen p ne v)
  Step-Holds m n pos (find_full i x h seen p full e) q v =
      subst (Holds capacity) (sym e) (rest-Holds capacity m i v)
  Step-Holds m n pos (lose_head i x h seen shared p e) q v =
      subst (Holds capacity) (sym e) (load-Holds capacity m i x v)
  Step-Holds m n pos (claim i x h seen p still e) q v =
      let place = e ∙ ap (λ k. claimed_at m i x k) still in
      subst (Holds capacity) (sym place)
        (claim-Holds capacity m i x pos v (prompt_room capacity m i x h seen pos p still q v))
  Step-Holds m n pos (write i x slot p e) q v =
      subst (Holds capacity) (sym e) (write-Holds capacity m i x slot pos p v)
  Step-Holds m n pos (publish i x slot p turn e) q v =
      subst (Holds capacity) (sym e) (publish-Holds capacity m i x slot pos p turn v)
  Step-Holds m n pos (load_tail j c e) q v =
      subst (Holds capacity) (sym e)
        (consume-Holds capacity m j waiting (peeking m.ring.tail) v c (λ k. (k, v.tail)))
  Step-Holds m n pos (find_item j t c ne e) q v = subst (Holds capacity) (sym e) (
      consume-Holds capacity m j (peeking t) (assured t) v c (λ k.
        (k.0, k.1, below capacity v.takes v.commits v.taken (λ z. ne (k.1 ∙ z ∙ sym v.committed)))))
  Step-Holds m n pos (find_empty j t c full e) q v =
      subst (Holds capacity) (sym e) (consume-Holds capacity m j (peeking t) waiting v c (λ k. k.0))
  Step-Holds m n pos (lose_tail j t shared c e) q v =
      subst (Holds capacity) (sym e)
        (consume-Holds capacity m j (assured t) (peeking m.ring.tail) v c (λ k. (k.0, v.tail)))
  Step-Holds m n pos (advance j t c still e) q v =
      subst (Holds capacity) (sym e) (advance-Holds capacity m j t c v)
  Step-Holds m n pos (read j slot x c at e) q v =
      subst (Holds capacity) (sym e) (read-Holds capacity m j slot x c at v)

  Reach-Holds :
      (m n : Machine A)
      → 0 < capacity
      → (r : Reach capacity mpsc m n) → IsPrompt capacity mpsc r
      → Holds capacity m
      → Holds capacity n
  unfolding IsPrompt
  Reach-Holds m n pos here q v = v
  Reach-Holds m o pos (next {n} r s) q v = Step-Holds n o pos s q.1 (Reach-Holds m n pos r q.0 v)

  start-Holds :
      (buffer : List A) (producers : ℕ)
      → 0 < capacity
      → length buffer ≡ capacity
      → Holds capacity (start buffer producers 1)
  start-Holds buffer producers pos size =
      let zeroed : 0 ≡ 0 % capacity = sym (mod-eq_of_lt pos) in
      record {
        commits = 0;
        takes = 0;
        consumer = waiting;
        rest = [];
        head = zeroed;
        committed = zeroed;
        tail = zeroed;
        taken = omega arith;
        ordered = omega arith;
        room = omega (arith, pos);
        single = refl;
        knows = refl;
        size = size;
        fifo = refl;
        items = λ q x from low at. absurd (omega (arith, low));
        owned = λ i p x slot at it.
            absurd (nothing p x slot (ap item_of (replicate_entry producers i resting p at)) it);
        stored = λ i x slot at.
            absurd
              (omega (arith, ap stage (replicate_entry producers i resting (written x slot) at)));
        apart = λ i j p q x y slot slot' ne at at' it it'.
            absurd (nothing p x slot (ap item_of (replicate_entry producers i resting p at)) it);
        loaded = λ i p h seen at it.
            absurd (unseen p h seen (ap sight_of (replicate_entry producers i resting p at)) it);
        roomy = λ i x h seen at. absurd (
            untested resting x h seen refl
              (replicate_entry producers i resting (tested x h seen) at));
      }

  -- However several producers and one consumer interleave on a new ring, whose buffer has `capacity`
  -- slots and at least one, as long as each claim comes before `capacity` slots have been claimed
  -- since its load of the head: what was popped is, in order, the front of what was claimed for
  -- pushing, and never more items than `capacity` are on their way.
  pub Reach-claim_order :
      (buffer : List A) (producers : ℕ) (m : Machine A)
      → 0 < capacity
      → length buffer ≡ capacity
      → (r : Reach capacity mpsc (start buffer producers 1) m) → IsPrompt capacity mpsc r
      → (m.popped ++ drop (length m.popped) m.pushed ≡ m.pushed)
        × (length m.pushed ≤ length m.popped + capacity)
  Reach-claim_order buffer producers m pos size r q =
      let v =
        Reach-Holds (start buffer producers 1) m pos r q (start-Holds buffer producers pos size) in
      (
        ap (λ l. m.popped ++ drop (length m.popped) l) v.fifo
            ∙ ap (λ l. m.popped ++ l) (drop-append_length m.popped v.rest)
            ∙ sym v.fifo,
        omega (arith, v.room, popped_near capacity m v),
      )
