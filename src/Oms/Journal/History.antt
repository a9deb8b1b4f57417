-- ===== src/Oms/Journal/History.antt =====
-- The index of the journal: histories by order.
use real_time_market_data_fe.Base.{
  ℕ, ◌+◌, ◌<◌, ◌≡◌, refl, sym, ap, ◌∙◌, ◌==◌, if◌then◌else◌, some, List, [], ◌∷◌, ◌++◌,
  append_assoc, append-nil, length, length-append, get_elem?, arith,
}
use real_time_market_data_fe.Base.Table.{find-assign}
use real_time_market_data_fe.Base.Words.{u64_mod}
use real_time_market_data_fe.Oms.Types.{OrderEvent}
use real_time_market_data_fe.Oms.Journal.{
  JournalEntry, OrderJournal, indexed, append, pick, get_history,
}

-- The entries of one order, in the order of the journal.
abbrev pub history_of : ℕ → List JournalEntry → List JournalEntry
history_of id [] = []
history_of id (e ∷ es) = if e.event.order_id == id then e ∷ history_of id es else history_of id es

-- Where these entries stand, counted from `k`.
abbrev pub positions : ℕ → ℕ → List JournalEntry → List ℕ
positions id k [] = []
positions id k (e ∷ es) =
    if e.event.order_id == id then k ∷ positions id (k + 1) es else positions id (k + 1) es

-- The entries are numbered from `k` on.
abbrev pub Numbered : ℕ → List JournalEntry → Type 0
Numbered k [] = Unit
Numbered k (e ∷ es) = (e.sequence_number ≡ k) × Numbered (k + 1) es

pub record IsIndexed (j : OrderJournal) : Type 0 where
  pub index : (id : ℕ) → indexed j.index id ≡ positions id 0 j.entries
  pub numbered : Numbered 1 j.entries
  pub next : j.next_sequence ≡ length j.entries + 1

positions-snoc :
    (id k : ℕ) (es : List JournalEntry) (e : JournalEntry)
    → positions id k (es ++ (e ∷ []))
      ≡ positions id k es ++ (if e.event.order_id == id then (k + length es) ∷ [] else [])
positions-snoc id k [] e = ground arith
positions-snoc id k (x ∷ es) e = ground (arith, positions-snoc id (k + 1) es e)

Numbered-snoc :
    (k : ℕ) (es : List JournalEntry) (e : JournalEntry)
    → Numbered k es
    → e.sequence_number ≡ k + length es
    → Numbered k (es ++ (e ∷ []))
Numbered-snoc k [] e h q = (omega arith, tt)
Numbered-snoc k (x ∷ es) e h q = (h.0, Numbered-snoc (k + 1) es e h.1 (omega arith))

pub append-IsIndexed :
    (j : OrderJournal) (e : OrderEvent)
    → IsIndexed j
    → length j.entries + 2 < u64_mod
    → IsIndexed (append j e).0
unfolding append
append-IsIndexed j e v h =
    let entry : JournalEntry = record { sequence_number = j.next_sequence; event = e } in
    record {
      index = λ id. ground (
        arith,
        find-assign e.order_id id (indexed j.index e.order_id ++ (length j.entries ∷ [])) j.index,
        positions-snoc id 0 j.entries entry,
        v.index id,
        v.index e.order_id,
        append-nil (positions id 0 j.entries),
      );
      numbered = Numbered-snoc 1 j.entries entry v.numbered (omega (arith, v.next));
      next = omega (arith, v.next, length-append j.entries (entry ∷ []));
    }

get_elem?-append :
    (pre es : List JournalEntry) (e : JournalEntry)
    → get_elem? (pre ++ (e ∷ es)) (length pre) ≡ some e
get_elem?-append [] es e = refl
get_elem?-append (x ∷ pre) es e = get_elem?-append pre es e

pick-positions :
    (id k : ℕ) (pre es : List JournalEntry)
    → k ≡ length pre
    → pick (pre ++ es) (positions id k es) ≡ history_of id es
unfolding pick
pick-positions id k pre [] q = refl
pick-positions id k pre (e ∷ es) q =
    let rest =
      pick-positions id (k + 1) (pre ++ (e ∷ [])) es (omega (arith, length-append pre (e ∷ []))) in
    let moved : pick (pre ++ (e ∷ es)) (positions id (k + 1) es) ≡ history_of id es =
      ap (λ l. pick l (positions id (k + 1) es)) (sym (append_assoc pre (e ∷ []) es)) ∙ rest in
    let found : get_elem? (pre ++ (e ∷ es)) k ≡ some e =
      ap (get_elem? (pre ++ (e ∷ es))) q ∙ get_elem?-append pre es e in
    ground (arith, moved, found)

-- In a journal whose index is right, `get_history` returns an order's entries, all of them and in the order of the journal.
pub get_history_lem :
    (j : OrderJournal) (id : ℕ) → IsIndexed j → get_history j id ≡ history_of id j.entries
unfolding get_history
get_history_lem j id v = ap (pick j.entries) (v.index id) ∙ pick-positions id 0 [] j.entries refl
