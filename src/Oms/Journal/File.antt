-- ===== src/Oms/Journal/File.antt =====
-- The journal's file: `flush_to_file` and `load_from_file`. A text's bytes, and the text that bytes
-- make, are parameters, as is the state that a byte beyond the seven states stands for; the file is
-- its bytes, or nothing where it cannot be opened.
use Prim.Native.String.{String}
use real_time_market_data_fe.Base.{
  ℕ, zero, suc, ◌+◌, ◌%◌, ◌^◌, ◌<◌, ◌≡◌, ◌==◌, leb, if◌then◌else◌, Bool, true, false, Option, none,
  some, List, [], ◌∷◌, ◌++◌, length, drop, take,
}
use real_time_market_data_fe.Base.Table
use real_time_market_data_fe.Base.Words.{add64}
use real_time_market_data_fe.Protocol.Wire.{put_le, get_le}
use real_time_market_data_fe.Protocol.Fix.Text.{codes, same}
use real_time_market_data_fe.Oms.Types.{
  OrderState, new, sent, acked, partial_fill, filled, cancelled, rejected, OrderEvent,
}
use real_time_market_data_fe.Oms.Journal.{JournalEntry, OrderJournal, new_journal, indexed, append}

abbrev pub magic : List ℕ
magic = codes "OJOURNAL"

-- `static_cast<uint8_t>` of a state.
abbrev pub state_byte : OrderState → ℕ
state_byte new = 0
state_byte sent = 1
state_byte acked = 2
state_byte partial_fill = 3
state_byte filled = 4
state_byte cancelled = 5
state_byte rejected = 6

-- The end of the loop's body: the entry joins the entries and the index.
unfoldable pub restore : OrderJournal → JournalEntry → OrderJournal
restore j entry = record {
  entries = j.entries ++ (entry ∷ []);
  index =
      Table.assign entry.event.order_id
        (indexed j.index entry.event.order_id ++ (length j.entries ∷ [])) j.index;
  next_sequence =
      if leb j.next_sequence entry.sequence_number
      then add64 entry.sequence_number 1
      else j.next_sequence;
}

module _ (bytes_of : String → List ℕ) (text_of : List ℕ → String) (beyond : ℕ → OrderState) where
  -- `static_cast<OrderState>` of a byte.
  abbrev pub byte_state : ℕ → OrderState
  byte_state n =
      if n == 0
      then new
      else if n == 1
      then sent
      else if n == 2
      then acked
      else if n == 3
      then partial_fill
      else if n == 4
      then filled
      else if n == 5
      then cancelled
      else if n == 6
      then rejected
      else beyond n

  abbrev pub reason_length : JournalEntry → ℕ
  reason_length e = length (bytes_of e.event.reason) % 2 ^ 32

  unfoldable pub entry_bytes : JournalEntry → List ℕ
  entry_bytes e =
      put_le 8 e.sequence_number
      ++ (put_le 8 e.event.order_id
          ++ ((state_byte e.event.from_state ∷ state_byte e.event.to_state ∷ [])
              ++ (put_le 8 e.event.timestamp
                  ++ (put_le 4 (reason_length e)
                      ++ take (reason_length e) (bytes_of e.event.reason)))))

  unfoldable pub entries_bytes : List JournalEntry → List ℕ
  entries_bytes [] = []
  entries_bytes (e ∷ es) = entry_bytes e ++ entries_bytes es

  unfoldable pub flush_to_file : OrderJournal → List ℕ
  flush_to_file j = magic ++ (put_le 8 (length j.entries) ++ entries_bytes j.entries)

  -- The entry in front of the bytes, and how many bytes it takes; bytes that are missing count as 0.
  unfoldable pub read_entry : List ℕ → JournalEntry
  read_entry s = record {
    sequence_number = get_le 8 s;
    event = record {
      order_id = get_le 8 (drop 8 s);
      from_state = byte_state (get_le 1 (drop 16 s));
      to_state = byte_state (get_le 1 (drop 17 s));
      timestamp = get_le 8 (drop 18 s);
      reason = text_of (take (get_le 4 (drop 26 s)) (drop 30 s));
    };
  }

  abbrev pub entry_size : List ℕ → ℕ
  entry_size s = 30 + get_le 4 (drop 26 s)

  -- The loop; it gives up at an entry that the file does not hold whole.
  unfoldable pub load_entries : ℕ → List ℕ → OrderJournal → OrderJournal × Bool
  load_entries zero s j = (j, true)
  load_entries (suc count) s j =
      let rest = load_entries count (drop (entry_size s) s) (restore j (read_entry s)) in
      if leb (entry_size s) (length s) then rest else (j, false)

  unfoldable pub load_from_file : Option (List ℕ) → OrderJournal → OrderJournal × Bool
  load_from_file none j = (j, false)
  load_from_file (some s) j =
      if same (take 8 s) magic
      then load_entries (get_le 8 (drop 8 s)) (drop 16 s) new_journal
      else (j, false)

  abbrev pub append_all : List OrderEvent → OrderJournal → OrderJournal
  append_all [] j = j
  append_all (e ∷ es) j = append_all es (append j e).0

  -- An event whose numbers and text have the widths of the file's fields.
  abbrev pub IsStorable : OrderEvent → Type 0
  IsStorable e =
      (e.order_id < 2 ^ 64)
      × ((e.timestamp < 2 ^ 64)
          × ((length (bytes_of e.reason) < 2 ^ 32) × (text_of (bytes_of e.reason) ≡ e.reason)))
