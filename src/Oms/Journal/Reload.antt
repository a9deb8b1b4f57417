-- ===== src/Oms/Journal/Reload.antt =====
-- A journal that is written to a file and loaded again.
use real_time_market_data_fe.Oms.Journal.Layout.{IsWhole, fits, load_entries-layout}
use Prim.Native.String.{String}
use real_time_market_data_fe.Base.{
  ℕ, suc, ◌^◌, ◌<◌, ◌≡◌, ◌∙◌, refl, sym, ap, subst, Bool, true, some, List, [], ◌∷◌, ◌++◌,
  append-nil, append_assoc, arith, All, length,
}
use real_time_market_data_fe.Protocol.Wire.{put_le, get_le-put_le}
use real_time_market_data_fe.Protocol.Fix.Text.{same}
use real_time_market_data_fe.Oms.Types.{OrderState}
use real_time_market_data_fe.Oms.Journal.{
  JournalEntry, OrderJournal, new_journal, OrderEvent, append, add64,
}
use real_time_market_data_fe.Oms.Journal.File.{
  restore, entries_bytes, flush_to_file, load_entries, load_from_file, IsStorable, append_all,
}

module _ (bytes_of : String → List ℕ) (text_of : List ℕ → String) (beyond : ℕ → OrderState) where
  abbrev restore_all : List JournalEntry → OrderJournal → OrderJournal
  restore_all [] j = j
  restore_all (e ∷ es) j = restore_all es (restore j e)

  loaded : (j : OrderJournal) → load_entries bytes_of text_of beyond 0 [] j ≡ (j, true)
  unfolding load_entries
  loaded j = refl

  load_entries-entries_bytes :
      (es : List JournalEntry) (j : OrderJournal)
      → All (IsWhole bytes_of text_of beyond) es
      → load_entries bytes_of text_of beyond
          (length es)
          (entries_bytes bytes_of text_of beyond es)
          j
        ≡ (restore_all es j, true)
  unfolding entries_bytes
  load_entries-entries_bytes [] j h = loaded j
  load_entries-entries_bytes (e ∷ es) j h =
      load_entries-layout bytes_of text_of beyond (length es) e
        (entries_bytes bytes_of text_of beyond es) j h.0
      ∙ load_entries-entries_bytes es (restore j e) h.1

  load-flush :
      (j : OrderJournal) (k : OrderJournal)
      → All (IsWhole bytes_of text_of beyond) j.entries
      → length j.entries < 2 ^ 64
      → load_from_file bytes_of text_of beyond (some (flush_to_file bytes_of text_of beyond j)) k
        ≡ (restore_all j.entries new_journal, true)
  unfolding load_from_file flush_to_file same put_le
  load-flush j k h small =
      ap
        (λ n.
          load_entries bytes_of text_of beyond n (entries_bytes bytes_of text_of beyond j.entries)
            new_journal)
        (get_le-put_le 8 (length j.entries) (entries_bytes bytes_of text_of beyond j.entries)
          (omega (arith, small)))
      ∙ load_entries-entries_bytes j.entries new_journal h

  -- The entries that the calls of `append` make.
  abbrev numbered : ℕ → List OrderEvent → List JournalEntry
  numbered n [] = []
  numbered n (e ∷ es) = (record { sequence_number = n; event = e }) ∷ numbered (add64 n 1) es

  restore-append :
      (j : OrderJournal) (e : OrderEvent)
      → restore j (record { sequence_number = j.next_sequence; event = e }) ≡ (append j e).0
  unfolding restore append
  restore-append j e = rw (fits j.next_sequence j.next_sequence (omega arith)) refl

  appended :
      (j : OrderJournal) (e : OrderEvent)
      → ((append j e).0.entries
          ≡ j.entries ++ ((record { sequence_number = j.next_sequence; event = e }) ∷ []))
        × ((append j e).0.next_sequence ≡ add64 j.next_sequence 1)
  unfolding append
  appended j e = (refl, refl)

  abbrev pair_true : OrderJournal → OrderJournal × Bool
  pair_true j = (j, true)

  append_all-numbered :
      (es : List OrderEvent) (j : OrderJournal)
      → ((append_all bytes_of text_of beyond es j).entries
          ≡ j.entries ++ numbered j.next_sequence es)
        × (restore_all (numbered j.next_sequence es) j ≡ append_all bytes_of text_of beyond es j)
  append_all-numbered [] j = (sym (append-nil j.entries), refl)
  append_all-numbered (e ∷ es) j =
      let entry : JournalEntry = record { sequence_number = j.next_sequence; event = e } in
      let after : OrderJournal = (append j e).0 in
      let ih = append_all-numbered es after in
      let next = appended j e in
      (
        ih.0
            ∙ ap (λ l. l ++ numbered after.next_sequence es) next.0
            ∙ ap (λ n. (j.entries ++ (entry ∷ [])) ++ numbered n es) next.1
            ∙ append_assoc j.entries (entry ∷ []) (numbered (add64 j.next_sequence 1) es),
        ap (λ n. restore_all (numbered n es) (restore j entry)) (sym next.1)
            ∙ ap (restore_all (numbered after.next_sequence es)) (restore-append j e)
            ∙ ih.1,
      )

  numbered-IsWhole :
      (n : ℕ) (es : List OrderEvent)
      → n < 2 ^ 64
      → All (IsStorable bytes_of text_of beyond) es
      → All (IsWhole bytes_of text_of beyond) (numbered n es)
  numbered-IsWhole n [] h s = tt
  numbered-IsWhole n (e ∷ es) h s = ((h, s.0), numbered-IsWhole (add64 n 1) es (omega arith) s.1)

  length-numbered : (n : ℕ) (es : List OrderEvent) → length (numbered n es) ≡ length es
  length-numbered n [] = refl
  length-numbered n (e ∷ es) = ap suc (length-numbered (add64 n 1) es)

  -- A journal of fewer than 2^64 events, whose numbers and texts fit the fields of the file, is loaded
  -- from its file as it was, with its index and its next number, whatever the loading journal held.
  pub load_from_file-flush_to_file :
      (es : List OrderEvent) (k : OrderJournal)
      → All (IsStorable bytes_of text_of beyond) es
      → length es < 2 ^ 64
      → load_from_file bytes_of text_of beyond
          (some (
            flush_to_file bytes_of text_of beyond
              (append_all bytes_of text_of beyond es new_journal)))
          k
        ≡ (append_all bytes_of text_of beyond es new_journal, true)
  load_from_file-flush_to_file es k h small =
      let j : OrderJournal = append_all bytes_of text_of beyond es new_journal in
      let made = append_all-numbered es new_journal in
      load-flush j k
        (subst (All (IsWhole bytes_of text_of beyond)) (sym made.0)
          (numbered-IsWhole 1 es (omega arith) h))
        (omega (arith, small, ap length made.0, length-numbered 1 es))
      ∙ ap (λ l. pair_true (restore_all l new_journal)) made.0
      ∙ ap pair_true made.1
