-- ===== src/Tests/Journals.antt =====
-- A journal's file at concrete events.
use Prim.Native.String.{String}
use real_time_market_data_fe.Base.{ℕ, ◌^◌, ◌≡◌, refl, true, some, List, [], ◌∷◌, arith, All}
use real_time_market_data_fe.Protocol.Fix.Text.{codes}
use real_time_market_data_fe.Oms.Types.{OrderState, new, sent, filled, rejected, OrderEvent}
use real_time_market_data_fe.Oms.Journal.{new_journal}
use real_time_market_data_fe.Oms.Journal.File.{
  append_all, flush_to_file, load_from_file, IsStorable,
}
use real_time_market_data_fe.Oms.Journal.Reload.{load_from_file-flush_to_file}

-- Two texts and their bytes.
abbrev text_of : List ℕ → String
text_of [] = ""
text_of (c ∷ s) = "fill"

abbrev beyond : ℕ → OrderState
beyond n = rejected

abbrev events : List OrderEvent
events =
    (record { order_id = 7; from_state = new; to_state = sent; timestamp = 1000; reason = "" })
    ∷ (record {
      order_id = 9;
      from_state = sent;
      to_state = filled;
      timestamp = 2 ^ 40;
      reason = "fill";
    })
    ∷ []

events-IsStorable : All (IsStorable codes text_of beyond) events
events-IsStorable = (
  (omega arith, (omega arith, (omega arith, refl))),
  ((omega arith, (omega arith, (omega arith, refl))), tt),
)

load_from_file-flush_to_file_example :
    load_from_file codes text_of beyond
      (some
        (flush_to_file codes text_of beyond (append_all codes text_of beyond events new_journal)))
      new_journal
    ≡ (append_all codes text_of beyond events new_journal, true)
load_from_file-flush_to_file_example =
    load_from_file-flush_to_file codes text_of beyond events new_journal events-IsStorable
      (omega arith)
