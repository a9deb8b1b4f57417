-- ===== src/Oms/Journal/Layout.antt =====
-- One entry of the journal's file, written and read.
use Prim.Native.String.{String}
use real_time_market_data_fe.Base.{
  ℕ, suc, ◌+◌, ◌*◌, ◌%◌, ◌^◌, ◌<◌, ◌≤◌, ◌≡◌, ◌∙◌, refl, ap, leb, if◌then◌else◌, true, false, List,
  [], ◌∷◌, ◌++◌, arith, length, length-append, drop-append_length, drop-append_add,
  take-append_length, drop, take,
}
use real_time_market_data_fe.Protocol.Wire.{put_le, get_le, get_le-put_le}
use real_time_market_data_fe.Oms.Types.{
  OrderState, new, sent, acked, partial_fill, filled, cancelled, rejected,
}
use real_time_market_data_fe.Oms.Journal.{JournalEntry, OrderJournal}
use real_time_market_data_fe.Oms.Journal.File.{
  state_byte, restore, byte_state, entry_bytes, read_entry, entry_size, load_entries, IsStorable,
}

take-length : {A : Type 0} (xs : List A) → take (length xs) xs ≡ xs
take-length [] = refl
take-length (x ∷ xs) = ap (λ l. x ∷ l) (take-length xs)

byte_back : (n : ℕ) → n + 256 * 0 ≡ n
byte_back n = omega arith

pub fits : (m n : ℕ) → m ≤ n → leb m n ≡ true
fits m n h = ground arith

module _ (bytes_of : String → List ℕ) (text_of : List ℕ → String) (beyond : ℕ → OrderState) where
  byte_state-state_byte : (s : OrderState) → byte_state bytes_of text_of beyond (state_byte s) ≡ s
  byte_state-state_byte new = refl
  byte_state-state_byte sent = refl
  byte_state-state_byte acked = refl
  byte_state-state_byte partial_fill = refl
  byte_state-state_byte filled = refl
  byte_state-state_byte cancelled = refl
  byte_state-state_byte rejected = refl

  abbrev pub IsWhole : JournalEntry → Type 0
  IsWhole e = (e.sequence_number < 2 ^ 64) × IsStorable bytes_of text_of beyond e.event

  -- The fields in front of the reason, and the reason.
  abbrev layout : JournalEntry → List ℕ → List ℕ
  layout e rest =
      put_le 8 e.sequence_number
      ++ (put_le 8 e.event.order_id
          ++ ((state_byte e.event.from_state ∷ state_byte e.event.to_state ∷ [])
              ++ (put_le 8 e.event.timestamp
                  ++ (put_le 4 (length (bytes_of e.event.reason))
                      ++ (bytes_of e.event.reason ++ rest)))))

  entry_bytes-layout :
      (e : JournalEntry) (rest : List ℕ)
      → IsWhole e
      → entry_bytes bytes_of text_of beyond e ++ rest ≡ layout e rest
  unfolding entry_bytes put_le
  entry_bytes-layout e rest h =
      let r : List ℕ = bytes_of e.event.reason in
      let len : length r % 2 ^ 32 ≡ length r = omega (arith, h.1.1.1.0) in
      ap (λ n. layout_with e n (take n r ++ rest)) len
      ∙ ap (λ t. layout_with e (length r) (t ++ rest)) (take-length r)
    where
      layout_with : JournalEntry → ℕ → List ℕ → List ℕ
      layout_with e n t =
          put_le 8 e.sequence_number
          ++ (put_le 8 e.event.order_id
              ++ ((state_byte e.event.from_state ∷ state_byte e.event.to_state ∷ [])
                  ++ (put_le 8 e.event.timestamp ++ (put_le 4 n ++ t))))

  entry_size-layout :
      (e : JournalEntry) (rest : List ℕ)
      → IsWhole e
      → entry_size bytes_of text_of beyond (layout e rest) ≡ 30 + length (bytes_of e.event.reason)
  unfolding put_le
  entry_size-layout e rest h =
      ap (λ n. 30 + n)
        (get_le-put_le 4 (length (bytes_of e.event.reason)) (bytes_of e.event.reason ++ rest)
          (omega (arith, h.1.1.1.0)))

  read_entry-layout :
      (e : JournalEntry) (rest : List ℕ)
      → IsWhole e
      → read_entry bytes_of text_of beyond (layout e rest) ≡ e
  unfolding read_entry put_le get_le
  read_entry-layout e rest h =
      let r : List ℕ = bytes_of e.event.reason in
      let b : ℕ → OrderState = byte_state bytes_of text_of beyond in
      let t3 : List ℕ = put_le 4 (length r) ++ (r ++ rest) in
      let t2 : List ℕ =
        (state_byte e.event.from_state ∷ state_byte e.event.to_state ∷ [])
        ++ (put_le 8 e.event.timestamp ++ t3) in
      let seq =
        get_le-put_le 8 e.sequence_number (put_le 8 e.event.order_id ++ t2) (omega (arith, h.0)) in
      let id = get_le-put_le 8 e.event.order_id t2 (omega (arith, h.1.0)) in
      let from : b (state_byte e.event.from_state + 256 * 0) ≡ e.event.from_state =
        ap b (byte_back (state_byte e.event.from_state))
        ∙ byte_state-state_byte e.event.from_state in
      let to : b (state_byte e.event.to_state + 256 * 0) ≡ e.event.to_state =
        ap b (byte_back (state_byte e.event.to_state)) ∙ byte_state-state_byte e.event.to_state in
      let time = get_le-put_le 8 e.event.timestamp t3 (omega (arith, h.1.1.0)) in
      let reason =
        ap (λ n. text_of (take n (r ++ rest)))
          (get_le-put_le 4 (length r) (r ++ rest) (omega (arith, h.1.1.1.0)))
        ∙ ap text_of (take-append_length r rest)
        ∙ h.1.1.1.1 in
      λ i. record {
        sequence_number = seq i;
        event = record {
          order_id = id i;
          from_state = from i;
          to_state = to i;
          timestamp = time i;
          reason = reason i;
        };
      }

  abbrev front : JournalEntry → List ℕ
  front e =
      put_le 8 e.sequence_number
      ++ (put_le 8 e.event.order_id
          ++ ((state_byte e.event.from_state ∷ state_byte e.event.to_state ∷ [])
              ++ (put_le 8 e.event.timestamp ++ put_le 4 (length (bytes_of e.event.reason)))))

  drop-layout :
      (e : JournalEntry) (rest : List ℕ)
      → drop (30 + length (bytes_of e.event.reason)) (layout e rest) ≡ rest
  unfolding put_le
  drop-layout e rest =
      drop-append_add (length (bytes_of e.event.reason)) (front e) (bytes_of e.event.reason ++ rest)
      ∙ drop-append_length (bytes_of e.event.reason) rest

  length-layout :
      (e : JournalEntry) (rest : List ℕ)
      → 30 + length (bytes_of e.event.reason) ≤ length (layout e rest)
  unfolding put_le
  length-layout e rest = omega (arith, length-append (bytes_of e.event.reason) rest)

  load_entries-whole :
      (count : ℕ) (s : List ℕ) (j : OrderJournal) (size : ℕ)
      → entry_size bytes_of text_of beyond s ≡ size
      → size ≤ length s
      → load_entries bytes_of text_of beyond (suc count) s j
        ≡ load_entries bytes_of text_of beyond count
            (drop size s)
            (restore j (read_entry bytes_of text_of beyond s))
  unfolding load_entries
  load_entries-whole count s j size e h =
      let grown : OrderJournal = restore j (read_entry bytes_of text_of beyond s) in
      ap
        (λ n.
          if leb n (length s)
          then load_entries bytes_of text_of beyond count (drop n s) grown
          else (j, false))
        e
      ∙ rw (fits size (length s) h) refl

  -- One round of the loop.
  pub load_entries-layout :
      (count : ℕ) (e : JournalEntry) (rest : List ℕ) (j : OrderJournal)
      → IsWhole e
      → load_entries bytes_of text_of beyond
          (suc count)
          (entry_bytes bytes_of text_of beyond e ++ rest)
          j
        ≡ load_entries bytes_of text_of beyond count rest (restore j e)
  load_entries-layout count e rest j h =
      ap (λ s. load_entries bytes_of text_of beyond (suc count) s j) (entry_bytes-layout e rest h)
      ∙ load_entries-whole count (layout e rest) j (30 + length (bytes_of e.event.reason))
          (entry_size-layout e rest h) (length-layout e rest)
      ∙ ap
          (λ x.
            load_entries bytes_of text_of beyond count
              (drop (30 + length (bytes_of e.event.reason)) (layout e rest)) (restore j x))
          (read_entry-layout e rest h)
      ∙ ap (λ s. load_entries bytes_of text_of beyond count s (restore j e)) (drop-layout e rest)
