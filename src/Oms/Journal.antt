-- ===== src/Oms/Journal.antt =====
-- include/qf/oms/state_machine/order_journal.hpp and src/oms/state_machine/order_journal.cpp, without
-- the locks; `File` has the file.
pub mod File
pub mod History
pub mod Layout
pub mod Reload
use mathlib.Core.Option
use real_time_market_data_fe.Base.{
  ℕ, ◌+◌, ◌-◌, min, ◌==◌, if◌then◌else◌, Option, none, some, List, [], ◌∷◌, ◌++◌, length, drop,
  get_elem?,
}
use real_time_market_data_fe.Base.Table
use real_time_market_data_fe.Base.Table.{Table}
use real_time_market_data_fe.Base.Words.{add64}
use real_time_market_data_fe.Oms.Types.{OrderEvent}

pub record JournalEntry : Type 0 where
  pub sequence_number : ℕ
  pub event : OrderEvent

pub record OrderJournal : Type 0 where
  pub entries : List JournalEntry
  pub index : Table (List ℕ)
  pub next_sequence : ℕ

abbrev pub new_journal : OrderJournal
new_journal = record { entries = []; index = []; next_sequence = 1 }

-- `index_[order_id]`, which makes an empty list where there is none.
abbrev pub indexed : Table (List ℕ) → ℕ → List ℕ
indexed index id = Option.get_or (Table.find id index) []

-- `append`: the journal, and the sequence number.
unfoldable pub append : OrderJournal → OrderEvent → OrderJournal × ℕ
append j event =
    let seq = j.next_sequence in
    let entry : JournalEntry = record { sequence_number = seq; event = event } in
    let idx = length j.entries in
    (
      record {
        entries = j.entries ++ (entry ∷ []);
        index = Table.assign event.order_id (indexed j.index event.order_id ++ (idx ∷ [])) j.index;
        next_sequence = add64 seq 1;
      },
      seq,
    )

-- The loop of `get_history`; an index out of range would be read as nothing.
pub pick : List JournalEntry → List ℕ → List JournalEntry
pick entries [] = []
pick entries (i ∷ is) = elim (get_elem? entries i) [
  | none ↦ pick entries is
  | some e ↦ e ∷ pick entries is
]

unfoldable pub get_history : OrderJournal → ℕ → List JournalEntry
get_history j order_id = pick j.entries (indexed j.index order_id)

unfoldable pub get_recent : OrderJournal → ℕ → List JournalEntry
get_recent j n = drop (length j.entries - min n (length j.entries)) j.entries

unfoldable pub size : OrderJournal → ℕ
size j = length j.entries
