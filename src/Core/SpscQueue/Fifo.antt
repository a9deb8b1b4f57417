-- ===== src/Core/SpscQueue/Fifo.antt =====
-- A queue that one thread uses behaves as a bounded FIFO list.
use native.Mathlib.Nat.{mod-eq_of_lt, mod-eq-sub-mod, mul-add-mod_self_left}
use real_time_market_data_fe.Base.{
  dec_lt, not, ℕ, suc, ◌+◌, ◌-◌, ◌%◌, ◌*◌, ◌<◌, ◌≡◌, ◌≢◌, refl, sym, ap, subst, ◌∙◌, ltb, ◌==◌,
  if◌then◌else◌, Bool-cases, inl, inr, true, false, Option, none, some, List, [], ◌∷◌, ◌++◌,
  get_elem?, set, length, length-append, length-set, get_elem?-set_self, arith, not,
}
use real_time_market_data_fe.Base.Words.{sub64, u64_mod}
use real_time_market_data_fe.Core.SpscQueue.{
  SpscQueue, masked_next, try_push, try_pop, size, empty, full,
}
use real_time_market_data_fe.Core.SpscQueue.Slots.{
  Slots, Slots-set, Slots-snoc, next_ne_tail, next_head, next_tail, next_ne_tail_of_room, mod_below,
  head_ne_tail,
}

abbrev pub first {ℓ} : {A : Type ℓ} → List A → Option A
first [] = none
first (x ∷ xs) = some x

abbrev pub others {ℓ} : {A : Type ℓ} → List A → List A
others [] = []
others (x ∷ xs) = xs

-- The masked difference of the indices is the number of slots between them.
masked_size : (c t n r : ℕ) → t < c → n < c → c * suc r ≡ u64_mod → sub64 ((t + n) % c) t % c ≡ n
masked_size c t n r ht hn e = elim (dec_lt (t + n) c) [
  | yes p ↦
      let diff : sub64 ((t + n) % c) t ≡ n = omega (arith, mod-eq_of_lt p) in
      ap (λ k. k % c) diff ∙ mod-eq_of_lt hn
  | no p ↦
      let wrapped : (t + n) % c ≡ t + n - c =
        mod-eq-sub-mod {n = t + n} {m = c} (omega arith)
        ∙ mod-eq_of_lt {n = t + n - c} {m = c} (omega arith) in
      let diff : sub64 ((t + n) % c) t ≡ c * r + n = omega (arith, wrapped, e) in
      ap (λ k. k % c) diff ∙ mul-add-mod_self_left c r n ∙ mod-eq_of_lt hn
]

module _ {A : Type 0} (capacity : ℕ) where
  -- `q` holds `items`, oldest first; one slot always stays free.
  pub record Represents (q : SpscQueue A) (items : List A) : Type 0 where
    pub slots : Slots capacity q.buffer q.tail items
    pub head : q.head ≡ (q.tail + length items) % capacity
    pub tail : q.tail < capacity
    pub room : length items < capacity
    pub size : length q.buffer ≡ capacity

  empty_test :
      (q : SpscQueue A) (items : List A)
      → Represents q items
      → (q.head == q.tail) ≡ (length items == 0)
  empty_test q [] v =
      let stuck : q.tail ≡ q.head =
        sym (v.head ∙ ap (λ k. k % capacity) (omega arith) ∙ mod-eq_of_lt v.tail) in
      ground arith
  empty_test q (x ∷ xs) v =
      let apart : q.tail ≢ q.head = (λ e.
        head_ne_tail capacity q.tail (suc (length xs)) v.tail (omega arith) v.room
          (sym v.head ∙ sym e)) in
      ground arith

  pushed-Represents :
      (q : SpscQueue A) (items : List A) (x : A)
      → Represents q items
      → length items + 1 < capacity
      → Represents
          (record q { buffer = set q.buffer q.head x; head = masked_next capacity q.head })
          (items ++ (x ∷ []))
  pushed-Represents q items x v h = record {
    slots =
        Slots-snoc capacity (set q.buffer q.head x) x q.tail items v.tail
          (Slots-set capacity q.buffer x q.tail items q.head v.tail v.room v.head v.slots)
          (subst (λ i. get_elem? (set q.buffer q.head x) i ≡ some x) v.head
            (get_elem?-set_self q.buffer q.head x (
              omega (
                arith,
                v.size,
                v.head,
                mod_below (q.tail + length items) capacity (omega arith),
              ))));
    head =
        ap (λ i. (i + 1) % capacity) v.head
        ∙ next_head capacity q.tail (length items)
        ∙ ap (λ k. (q.tail + k) % capacity) (sym (length-append items (x ∷ [])));
    tail = v.tail;
    room = omega (arith, h, length-append items (x ∷ []));
    size = length-set q.buffer q.head x ∙ v.size;
  }

  push_test :
      (q : SpscQueue A) (items : List A)
      → Represents q items
      → (masked_next capacity q.head == q.tail) ≡ not (ltb (length items + 1) capacity)
  push_test q items v = elim (Bool-cases (ltb (length items + 1) capacity)) [
    | inl y ↦ rw y (
        ground (
          arith,
          ap (λ i. (i + 1) % capacity) v.head,
          next_ne_tail_of_room capacity q.tail (length items) v.tail,
        ))
    | inr n ↦ rw n (
        ground (
          arith,
          ap (λ i. (i + 1) % capacity) v.head,
          next_ne_tail capacity q.tail (length items) v.tail v.room,
        ))
  ]

  -- On a queue that holds some items, `try_push` succeeds exactly if fewer than `capacity - 1` items are in, and appends its item;
  -- otherwise the queue holds what it held.
  pub try_push_lem :
      (q : SpscQueue A) (items : List A) (x : A)
      → Represents q items
      → let fits = ltb (length items + 1) capacity in
        let (q', pushed) = try_push capacity q x in
        (pushed ≡ fits) × Represents q' (if fits then items ++ (x ∷ []) else items)
  unfolding try_push
  try_push_lem q items x v = elim (Bool-cases (ltb (length items + 1) capacity)) [
    | inl y ↦ rw (push_test q items v, y) (refl, pushed-Represents q items x v (ground arith))
    | inr n ↦ rw (push_test q items v, n) (refl, v)
  ]

  -- On a queue that holds some items, `try_pop` gives the oldest item and leaves the others; from an empty queue it gives none.
  pub try_pop_lem :
      (q : SpscQueue A) (items : List A)
      → Represents q items
      → let (q', popped) = try_pop capacity q in
        (popped ≡ first items) × Represents q' (others items)
  unfolding try_pop
  try_pop_lem q [] v =
      let stuck : q.tail ≡ q.head =
        sym (v.head ∙ ap (λ k. k % capacity) (omega arith) ∙ mod-eq_of_lt v.tail) in
      let test : (q.tail == q.head) ≡ true = ground arith in rw test (refl, v)
  try_pop_lem q (x ∷ xs) v =
      let apart : q.tail ≢ q.head = (λ e.
        head_ne_tail capacity q.tail (suc (length xs)) v.tail (omega arith) v.room
          (sym v.head ∙ sym e)) in
      let after : Represents (record q { tail = masked_next capacity q.tail }) xs = record {
        slots = v.slots.1;
        head = v.head ∙ next_tail capacity q.tail (length xs);
        tail = mod_below (q.tail + 1) capacity (omega (arith, v.tail));
        room = omega (arith, v.room);
        size = v.size;
      } in
      let test : (q.tail == q.head) ≡ false = ground arith in rw test (v.slots.0, after)

  -- `size` counts the items and `empty` and `full` tell its ends, for a capacity that divides 2^64.
  pub size_lem :
      (q : SpscQueue A) (items : List A) (r : ℕ)
      → Represents q items
      → capacity * suc r ≡ u64_mod
      → (size capacity q ≡ length items)
        × (empty capacity q ≡ (length items == 0))
        × (full capacity q ≡ (length items + 1 == capacity))
  unfolding size empty full
  size_lem q items r v e =
      let counted : size capacity q ≡ length items =
        ap (λ h. sub64 h q.tail % capacity) v.head
        ∙ masked_size capacity q.tail (length items) r v.tail v.room e in
      (counted, empty_test q items v, full_test (size capacity q) (length items) counted v.room)
    where
      full_test : (s n : ℕ) → s ≡ n → n < capacity → (s == capacity - 1) ≡ (n + 1 == capacity)
      full_test s n p h = ground arith
