-- ===== src/Tests/Books.antt =====
-- The books at concrete calls.
use real_time_market_data_fe.Base.{
  ◌≡◌, refl, arith, Bool, true, false, none, some, List, [], ◌∷◌, ltb, ◌&&◌, length,
}
use real_time_market_data_fe.Base.Table
use real_time_market_data_fe.Base.Table.{total}
use real_time_market_data_fe.Base.Words.{u32_mod}
use real_time_market_data_fe.Base.Ordered.{insert, greater, less}
use real_time_market_data_fe.Core.Order.{Order, add, remove, add_quantity, remove_quantity}
use real_time_market_data_fe.Core.Book.{
  OrderBook, new_book, add_order, cancel_order, execute_order, replace_order, deposit, withdraw,
  reduce_level, add_to_side, remove_from_side, update_level, settle, best_bid, best_ask,
  best_bid_qty, best_ask_qty, BookSnapshot,
}
use real_time_market_data_fe.Core.Book.Range.{InRange-of_total}
use real_time_market_data_fe.Core.Book.Consistency.{IsConsistent, new_book-IsConsistent}
use real_time_market_data_fe.Core.Book.Runs.{Command, StaysInRange, step, run, run-IsConsistent}
use real_time_market_data_fe.Core.Book.Sums.{quantity, InRange}
use real_time_market_data_fe.Core.Book.Laws.{
  cancel_order-add_order, execute_order_lem, replace_order_lem, Tells,
}
use real_time_market_data_fe.Core.Book.Top.{IsBest, top_prices, top_quantities}

abbrev pub calls : List Command
calls =
    Command.add 1 1 100 10 0
    ∷ Command.add 2 2 105 5 0
    ∷ Command.add 3 1 100 7 0
    ∷ Command.execute 1 4
    ∷ Command.execute 3 7
    ∷ Command.replace 2 104 6
    ∷ []

-- Few orders with a small sum, after each call.
abbrev is_small : OrderBook → Bool
is_small b =
    ltb (total (λ (o : Order). o.remaining_quantity) b.store) u32_mod
    && ltb (length b.store) u32_mod

abbrev stays_small : OrderBook → List Command → Bool
stays_small b [] = is_small b
stays_small b (c ∷ cs) = is_small b && stays_small (step b c) cs

StaysInRange-of_small :
    (b : OrderBook) (cs : List Command) → stays_small b cs ≡ true → StaysInRange b cs
StaysInRange-of_small b [] e = InRange-of_total b.store (ground arith) (ground arith)
StaysInRange-of_small b (c ∷ cs) e = (
  InRange-of_total b.store (ground arith) (ground arith),
  StaysInRange-of_small (step b c) cs (ground arith),
)

calls-StaysInRange : StaysInRange (new_book 7) calls
unfolding new_book run step add_order add cancel_order remove execute_order replace_order deposit
    insert add_quantity withdraw remove_quantity reduce_level add_to_side remove_from_side
    update_level settle Table.find Table.erase Table.modify total
calls-StaysInRange = StaysInRange-of_small (new_book 7) calls refl

run-IsConsistent_example : IsConsistent (run (new_book 7) calls)
run-IsConsistent_example =
    run-IsConsistent (new_book 7) calls (new_book-IsConsistent 7) calls-StaysInRange

-- A buy order for 6 at 100 and a sell order for 6 at 104 are left.
abbrev pub book : OrderBook
book = run (new_book 7) calls

book-IsConsistent : IsConsistent book
book-IsConsistent = run-IsConsistent (new_book 7) calls (new_book-IsConsistent 7) calls-StaysInRange

book-tops : (best_bid book ≡ some 100) × (best_ask book ≡ some 104)
unfolding best_bid best_ask new_book run step add_order add cancel_order remove execute_order
    replace_order deposit insert add_quantity withdraw remove_quantity reduce_level add_to_side
    remove_from_side update_level settle Table.find Table.erase Table.modify total
book-tops = (refl, refl)

book-order :
    Table.find 1 book.store
    ≡ some (record {
      order_id = 1;
      symbol = 7;
      side = 1;
      price = 100;
      remaining_quantity = 6;
      timestamp = 0;
    })
unfolding new_book run step add_order add cancel_order remove execute_order replace_order deposit
    insert add_quantity withdraw remove_quantity reduce_level add_to_side remove_from_side
    update_level settle Table.find Table.erase Table.modify total
book-order = refl

book-InRange : InRange book.store
unfolding new_book run step add_order add cancel_order remove execute_order replace_order deposit
    insert add_quantity withdraw remove_quantity reduce_level add_to_side remove_from_side
    update_level settle Table.find Table.erase Table.modify total
book-InRange = InRange-of_total book.store (omega arith) (omega arith)

book_added-InRange : InRange (add_order book 9 1 101 5 0).0.store
unfolding new_book run step add_order add cancel_order remove execute_order replace_order deposit
    insert add_quantity withdraw remove_quantity reduce_level add_to_side remove_from_side
    update_level settle Table.find Table.erase Table.modify total
book_added-InRange =
    InRange-of_total (add_order book 9 1 101 5 0).0.store (omega arith) (omega arith)

book-fresh : Table.find 9 book.store ≡ none
unfolding new_book run step add_order add cancel_order remove execute_order replace_order deposit
    insert add_quantity withdraw remove_quantity reduce_level add_to_side remove_from_side
    update_level settle Table.find Table.erase Table.modify total
book-fresh = refl

abbrev first_order : Order
first_order = record {
  order_id = 1;
  symbol = 7;
  side = 1;
  price = 100;
  remaining_quantity = 6;
  timestamp = 0;
}

top_prices_example :
    IsBest greater book.store true (best_bid book) × IsBest less book.store false (best_ask book)
top_prices_example = top_prices book book-IsConsistent

top_quantities_example :
    (best_bid_qty book ≡ quantity book.store true 100)
    × (best_ask_qty book ≡ quantity book.store false 104)
top_quantities_example = top_quantities book 100 104 book-IsConsistent book-tops.0 book-tops.1

cancel_order-add_order_example : (cancel_order (add_order book 9 1 101 5 0).0 9).0 ≡ book
cancel_order-add_order_example =
    cancel_order-add_order book 9 1 101 5 0 book-IsConsistent book-fresh book_added-InRange

execute_order_lem_example :
    let (b', out) = execute_order book 1 2 in
    (Table.find 1 b'.store ≡ some (record first_order { remaining_quantity = 4 }))
    × (b'.symbol ≡ book.symbol)
    × ((u : BookSnapshot) × ((out ≡ some u) × Tells u b' 0))
execute_order_lem_example =
    execute_order_lem book 1 1 2 first_order book-IsConsistent book-InRange book-order (omega arith)
      (omega arith)

replace_order_lem_example :
    let replaced = (replace_order book 1 99 3).0 in
    let readded = (add_order (cancel_order book 1).0 1 1 99 3 0).0 in
    (replaced.bids ≡ readded.bids) × (replaced.asks ≡ readded.asks)
replace_order_lem_example = replace_order_lem book 1 99 3 first_order book-order
