-- ===== src/Protocol/Batcher/Batches.antt =====
-- The batch that a batcher holds, and what each call does to it.
use real_time_market_data_fe.Base.{
  leb, not, ◌&&◌, flatten, flatten-snoc, drop-append_add, ℕ, ◌+◌, ◌%◌, ◌≤◌, ◌<◌, ◌≡◌, refl, sym, ap,
  subst, ◌∙◌, ◌==◌, if◌then◌else◌, some, List, [], ◌∷◌, ◌++◌, length, drop, take, replicate, arith,
  length-drop, length-append, append_assoc, take-append_length, drop-append_length,
}
use real_time_market_data_fe.Base.Words.{u16_mod, add64}
use real_time_market_data_fe.Protocol.Batcher.Header.{length-batch_header_bytes}
use real_time_market_data_fe.Protocol.Batcher.{
  BatchHeader, Batcher, batch_header_size, max_datagram, new_batcher, overwrite, append, add,
  batch_header_bytes, write_header, flush,
}

-- `b` holds the messages `ms`: 12 bytes for the header, then the messages, then unused space.
pub record Holds (b : Batcher) (ms : List (List ℕ)) : Type 0 where
  pub front : List ℕ
  pub back : List ℕ
  pub split : b.buffer ≡ front ++ (flatten ms ++ back)
  pub header_room : length front ≡ batch_header_size
  pub size : length b.buffer ≡ max_datagram
  pub position : b.write_pos ≡ batch_header_size + length (flatten ms)
  pub within : b.write_pos ≤ b.max_size
  pub limit : b.max_size ≤ max_datagram
  pub counted : b.msg_count ≡ length ms
  pub few : length ms ≤ length (flatten ms)

pub new_batcher-Holds :
    (n : ℕ) → batch_header_size ≤ n → n ≤ max_datagram → Holds (new_batcher n) []
unfolding new_batcher flatten
new_batcher-Holds n lo hi = record {
  front = replicate 12 0;
  back = replicate 1388 0;
  split = refl;
  header_room = refl;
  size = refl;
  position = refl;
  within = lo;
  limit = hi;
  counted = refl;
  few = omega arith;
}

-- The header that the next datagram carries.
abbrev pub header_now : Batcher → List (List ℕ) → BatchHeader
header_now b ms = record {
  seq_num = b.seq_num;
  msg_count = length ms;
  total_len = batch_header_size + length (flatten ms);
}

overwrite_lem :
    (at : ℕ) (bytes xs ys : List ℕ)
    → at ≡ length xs
    → overwrite at bytes (xs ++ ys) ≡ xs ++ (bytes ++ drop (length bytes) ys)
overwrite_lem at bytes xs ys e =
    rw (e, take-append_length xs ys, drop-append_add (length bytes) xs ys)

module _ (b : Batcher) (ms : List (List ℕ)) (v : Holds b ms) where
  open v use {front, back}

  length-pending : length front + (length (flatten ms) + length back) ≡ max_datagram
  length-pending = omega (
    arith,
    ap length v.split,
    v.size,
    length-append front (flatten ms ++ back),
    length-append (flatten ms) back,
  )

  overwritten :
      (m : List ℕ)
      → overwrite b.write_pos m b.buffer
        ≡ front ++ (flatten (ms ++ (m ∷ [])) ++ drop (length m) back)
  overwritten m =
      ap (overwrite b.write_pos m) (v.split ∙ sym (append_assoc front (flatten ms) back))
      ∙ overwrite_lem b.write_pos m (front ++ flatten ms) back
          (omega (arith, v.position, v.header_room, length-append front (flatten ms)))
      ∙ simp (flatten-snoc, append_assoc)

  pub append-Holds :
      (m : List ℕ)
      → 0 < length m
      → b.write_pos + length m ≤ b.max_size
      → Holds (append b m) (ms ++ (m ∷ []))
  unfolding append
  append-Holds m pos fits = record {
    front = front;
    back = drop (length m) back;
    split = overwritten m;
    header_room = v.header_room;
    size = omega (
      arith,
      ap length (overwritten m),
      length-pending,
      v.header_room,
      v.position,
      v.limit,
      length-append front (flatten (ms ++ (m ∷ [])) ++ drop (length m) back),
      length-append (flatten (ms ++ (m ∷ []))) (drop (length m) back),
      ap length (flatten-snoc ms m),
      length-append (flatten ms) m,
      length-drop (length m) back,
    );
    position =
        omega (arith, v.position, ap length (flatten-snoc ms m), length-append (flatten ms) m);
    within = fits;
    limit = v.limit;
    counted = omega (arith, v.counted, v.few, length-append ms (m ∷ []), length-pending);
    few = omega (
      arith,
      v.few,
      pos,
      length-append ms (m ∷ []),
      ap length (flatten-snoc ms m),
      length-append (flatten ms) m,
    );
  }

  header_told :
      record { seq_num = b.seq_num; msg_count = b.msg_count; total_len = b.write_pos % u16_mod }
      ≡ header_now b ms
  header_told = λ i. record { seq_num = b.seq_num; msg_count = v.counted i; total_len = no_wrap i }
    where
      no_wrap : b.write_pos % u16_mod ≡ batch_header_size + length (flatten ms)
      no_wrap = omega (arith, v.position, length-pending)

  headed : (write_header b).buffer ≡ batch_header_bytes (header_now b ms) ++ (flatten ms ++ back)
  unfolding write_header
  headed =
      ap (λ h. overwrite 0 (batch_header_bytes h) b.buffer) header_told
      ∙ ap (overwrite 0 (batch_header_bytes (header_now b ms))) v.split
      ∙ ap (◌++◌ (batch_header_bytes (header_now b ms))) cut
    where
      cut :
          drop (0 + length (batch_header_bytes (header_now b ms))) (front ++ (flatten ms ++ back))
          ≡ flatten ms ++ back
      cut =
          let e : 0 + length (batch_header_bytes (header_now b ms)) ≡ length front =
            omega (arith, length-batch_header_bytes (header_now b ms), v.header_room) in
          rw e (drop-append_length front (flatten ms ++ back))

  -- What a batcher is left with after a datagram is sent.
  abbrev pub emptied : Batcher
  emptied = record (write_header b) { write_pos = batch_header_size; msg_count = 0 }

  flush_sends : 0 < length ms → flush b ≡ (emptied, some (take b.write_pos (write_header b).buffer))
  unfolding flush write_header
  flush_sends some_message = ground (arith, v.counted)

  sent_bytes :
      take b.write_pos (write_header b).buffer ≡ batch_header_bytes (header_now b ms) ++ flatten ms
  sent_bytes =
      ap (take b.write_pos)
        (headed ∙ sym (append_assoc (batch_header_bytes (header_now b ms)) (flatten ms) back))
      ∙ subst
          (λ n.
            take n ((batch_header_bytes (header_now b ms) ++ flatten ms) ++ back)
            ≡ batch_header_bytes (header_now b ms) ++ flatten ms)
          counted_bytes
          (take-append_length (batch_header_bytes (header_now b ms) ++ flatten ms) back)
    where
      counted_bytes : length (batch_header_bytes (header_now b ms) ++ flatten ms) ≡ b.write_pos
      counted_bytes = omega (
        arith,
        length-append (batch_header_bytes (header_now b ms)) (flatten ms),
        length-batch_header_bytes (header_now b ms),
        v.position,
      )

  emptied-Holds : Holds emptied []
  unfolding write_header flatten
  emptied-Holds = record {
    front = batch_header_bytes (header_now b ms);
    back = flatten ms ++ back;
    split = headed;
    header_room = length-batch_header_bytes (header_now b ms);
    size = omega (
      arith,
      ap length headed,
      length-batch_header_bytes (header_now b ms),
      length-pending,
      v.header_room,
      length-append (batch_header_bytes (header_now b ms)) (flatten ms ++ back),
      length-append (flatten ms) back,
    );
    position = refl;
    within = omega (arith, v.within, v.position);
    limit = v.limit;
    counted = refl;
    few = omega arith;
  }

  seq_num-emptied : emptied.seq_num ≡ add64 b.seq_num 1
  unfolding write_header
  seq_num-emptied = refl

  -- Flushing a batch that is not empty sends the header, with the number of messages and of bytes,
  -- and then the messages; the batcher is left empty, with the next sequence number.
  pub flush_lem :
      0 < length ms
      → let (b', sent) = flush b in
        (sent ≡ some (batch_header_bytes (header_now b ms) ++ flatten ms))
        × Holds b' []
        × (b'.seq_num ≡ add64 b.seq_num 1)
  flush_lem some_message =
      rw (flush_sends some_message) (ap some sent_bytes, emptied-Holds, seq_num-emptied)

-- On a batcher that holds some messages, `add` takes a message exactly if it has bytes and fits; then
-- it stands behind the others, and the sequence number and the limit stay. A message that is refused
-- leaves the whole batcher as it was.
pub add_lem :
    (b : Batcher) (ms : List (List ℕ)) (m : List ℕ)
    → Holds b ms
    → let fits = not (length m == 0) && leb (b.write_pos + length m) b.max_size in
      let (b', taken) = add b m in
      (taken ≡ fits)
      × Holds b' (if fits then ms ++ (m ∷ []) else ms)
      × (b'.seq_num ≡ b.seq_num)
      × (b'.max_size ≡ b.max_size)
      × (b' ≡ (if fits then b' else b))
unfolding add append
add_lem b ms m v = ground (arith, v.position, append-Holds b ms v m)
