-- ===== src/Tests/Managers.antt =====
-- The managers at concrete events and calls.
use real_time_market_data_fe.Base.{
  ℕ, ◌≡◌, refl, arith, false, none, some, List, [], ◌∷◌, ◌||◌, ◌&&◌, not,
}
use real_time_market_data_fe.Base.Table
use real_time_market_data_fe.Base.Table.{Table, total}
use real_time_market_data_fe.Base.Ordered.{insert}
use real_time_market_data_fe.Core.Order.{add, add_quantity}
use real_time_market_data_fe.Core.Book.{OrderBook, new_book, add_order, add_to_side, deposit}
use real_time_market_data_fe.Core.Book.Range.{InRange-of_total}
use real_time_market_data_fe.Core.Book.Runs.{step}
use real_time_market_data_fe.Core.Manager.{BookManager, new_manager, process, get_or_create, route}
use real_time_market_data_fe.Core.Manager.Routing.{apply, command, Routed, target, process_lem}
use real_time_market_data_fe.Core.Manager.Integrity.{
  AllConsistent, TargetInRange, process-AllConsistent, reused_id_orphans,
}
use real_time_market_data_fe.Protocol.Messages.{AddOrder, ParsedMessage}
use real_time_market_data_fe.Protocol.Messages
use real_time_market_data_fe.Oms.Types.{new, sent, cancelled, OmsOrder, FillReport, OrderEvent}
use real_time_market_data_fe.Oms.Transitions.{
  is_valid, is_valid_transition, only_in_header, tables_lem,
}
use real_time_market_data_fe.Oms.Journal.{new_journal, append, get_history}
use real_time_market_data_fe.Oms.Journal.History.{
  IsIndexed, history_of, append-IsIndexed, get_history_lem,
}
use real_time_market_data_fe.Oms.Manager.{
  OrderManager, Decision, new_order_manager, on_fill, take_fill, fill_target,
}
use real_time_market_data_fe.Oms.Manager.Fills.{on_fill_lem}
use real_time_market_data_fe.Oms.Manager.Replay.{IsRecorded}
use real_time_market_data_fe.Oms.Manager.Calls.{
  Call, run, new_order_manager-IsRecorded, run-IsRecorded,
}

abbrev buy_ten : AddOrder
buy_ten = record { order_id = 1; side = 1; symbol = 7; price = 100; quantity = 10 }

-- A manager with one book.
abbrev one_book : BookManager
one_book =
    (process new_manager
      (record { message = Messages.ParsedMessage.add_order buy_ten; receive_timestamp = 5 }) 6).0

process_lem_example :
    Routed one_book
      (Messages.ParsedMessage.cancel_order (record { order_id = 1 }))
      7
      8
      7
      1
      (target one_book (Messages.ParsedMessage.cancel_order (record { order_id = 1 })))
process_lem_example =
    process_lem one_book (Messages.ParsedMessage.cancel_order (record { order_id = 1 })) 7 8 7 1

add_ten-InRange :
    TargetInRange
      (Messages.ParsedMessage.add_order buy_ten)
      (target new_manager (Messages.ParsedMessage.add_order buy_ten))
unfolding get_or_create new_book step add_order add add_to_side deposit insert add_quantity
    Table.find total
add_ten-InRange = (
  InRange-of_total [] (omega arith) (omega arith),
  InRange-of_total
      (apply (get_or_create new_manager 7)
        (command (Messages.ParsedMessage.add_order buy_ten))).store
      (omega arith) (omega arith),
)

process-AllConsistent_example :
    AllConsistent
      (process new_manager
        (record { message = Messages.ParsedMessage.add_order buy_ten; receive_timestamp = 5 })
        6).0
process-AllConsistent_example =
    process-AllConsistent new_manager (Messages.ParsedMessage.add_order buy_ten) 5 6 tt
      add_ten-InRange

tables_lem_example :
    (is_valid sent cancelled
      ≡ (is_valid_transition sent cancelled && not (only_in_header sent cancelled)))
    × (is_valid_transition sent cancelled
        ≡ (is_valid sent cancelled || only_in_header sent cancelled))
tables_lem_example = tables_lem sent cancelled

abbrev decision : Decision
decision = record {
  symbol = 7;
  side = 1;
  quantity = 10;
  order_type = 1;
  limit_price = 100;
  urgency = 0;
}

abbrev fill : FillReport
fill = record { order_id = 1; fill_price = 100; fill_quantity = 4; timestamp = 9; is_final = false }

abbrev order_calls : List (Call × (ℕ → ℕ))
order_calls =
    (Call.submit_call decision, λ k. k)
    ∷ (Call.ack_call 1, λ k. k)
    ∷ (Call.fill_call fill, λ k. k)
    ∷ (Call.cancel_call 1, λ k. k)
    ∷ []

run-IsRecorded_example : IsRecorded (run new_order_manager order_calls)
run-IsRecorded_example =
    run-IsRecorded new_order_manager order_calls new_order_manager-IsRecorded (omega arith)

abbrev a_sent_order : OmsOrder
a_sent_order = record {
  order_id = 1;
  symbol = 7;
  side = 1;
  type = 1;
  price = 100;
  quantity = 10;
  filled_quantity = 0;
  state = sent;
  created = 1;
  sent_at = 2;
  acked_at = 0;
  last_fill = 0;
}

abbrev holding : OrderManager
holding = record new_order_manager { orders = (1, a_sent_order) ∷ []; next_id = 2 }

-- A fill that reaches an order before its acknowledgement is refused, and changes the order.
on_fill_lem_example :
    (Table.find 1 (on_fill holding fill (λ k. k)).0.orders
      ≡ some (record a_sent_order { filled_quantity = 4; last_fill = 9 }))
    × ((on_fill holding fill (λ k. k)).1.success ≡ false)
unfolding take_fill fill_target Table.find
on_fill_lem_example = on_fill_lem holding fill (λ k. k) a_sent_order refl

abbrev an_event : OrderEvent
an_event = record {
  order_id = 1;
  from_state = new;
  to_state = sent;
  timestamp = 3;
  reason = "submit";
}

new_journal-IsIndexed : IsIndexed new_journal
unfolding Table.find
new_journal-IsIndexed = record { index = λ id. refl; numbered = tt; next = refl }

get_history_lem_example :
    get_history (append new_journal an_event).0 1
    ≡ history_of 1 (append new_journal an_event).0.entries
get_history_lem_example =
    get_history_lem (append new_journal an_event).0 1
      (append-IsIndexed new_journal an_event new_journal-IsIndexed (omega arith))

-- The id 1 of the book of 7 comes again, for 8.
abbrev again : AddOrder
again = record { order_id = 1; side = 2; symbol = 8; price = 90; quantity = 1 }

abbrev book_of_7 : OrderBook
book_of_7 = record {
  symbol = 7;
  store =
      (
        1,
        record {
          order_id = 1;
          symbol = 7;
          side = 1;
          price = 100;
          remaining_quantity = 10;
          timestamp = 0;
        },
      )
      ∷ [];
  bids = (100, record { price = 100; total_quantity = 10; order_count = 1 }) ∷ [];
  asks = [];
}

abbrev holding_book : BookManager
holding_book = record new_manager { books = (7, book_of_7) ∷ []; order_to_symbol = (1, 7) ∷ [] }

reused_id_orphans_example :
    let m1 =
      (process holding_book
        (record { message = Messages.ParsedMessage.add_order again; receive_timestamp = 1 })
        2).0 in
    let cancel = Messages.ParsedMessage.cancel_order (record { order_id = 1 }) in
    let m2 = (process m1 (record { message = cancel; receive_timestamp = 1 }) 3).0 in
    (Table.find 7 m2.books ≡ some book_of_7) × (route m2 1 ≡ none)
unfolding Table.find
reused_id_orphans_example =
    reused_id_orphans holding_book again 7 1 2 3 book_of_7 refl (ground arith)
