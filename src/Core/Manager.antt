-- ===== src/Core/Manager.antt =====
-- include/qf/core/book_manager.hpp and src/core/book_manager.cpp: a book for each symbol, and the
-- symbol of each order id. `Clock::now_ns()` is the argument `now`. The order in which a hash map
-- iterates is that of the table.
pub mod Routing
pub mod Integrity
use mathlib.Core.Option
use real_time_market_data_fe.Base.{ℕ, Option, none, some, List, [], ◌∷◌, map}
use real_time_market_data_fe.Base.Table
use real_time_market_data_fe.Base.Table.{Table}
use real_time_market_data_fe.Core.Order.{PriceLevel, empty_level}
use real_time_market_data_fe.Core.Book.{
  OrderBook, new_book, add_order, cancel_order, execute_order, replace_order, best_bid, best_ask,
  best_bid_qty, best_ask_qty,
}
use real_time_market_data_fe.Core.PipelineTypes.{ParsedEvent, BookUpdate, no_update}
use real_time_market_data_fe.Protocol.Messages.{ParsedMessage}
use real_time_market_data_fe.Protocol.Messages

pub record BookManager : Type 0 where
  pub books : Table OrderBook
  pub order_to_symbol : Table ℕ

abbrev pub new_manager : BookManager
new_manager = record { books = []; order_to_symbol = [] }

-- `get_or_create`: the book that it finds or makes. Its caller writes the book back.
unfoldable pub get_or_create : BookManager → ℕ → OrderBook
get_or_create m symbol = Option.get_or (Table.find symbol m.books) (new_book symbol)

-- One side of `make_update`: an aggregated level, with an order count of 1.
abbrev pub top_level : Option ℕ → ℕ → Option PriceLevel
top_level none qty = none
top_level (some p) qty = some (record (empty_level p) { total_quantity = qty; order_count = 1 })

unfoldable pub make_update : OrderBook → ℕ → ℕ → BookUpdate
make_update book recv_timestamp now = record {
  symbol = book.symbol;
  best_bid = top_level (best_bid book) (best_bid_qty book);
  best_ask = top_level (best_ask book) (best_ask_qty book);
  receive_timestamp = recv_timestamp;
  book_timestamp = now;
}

-- The look-ups that the cancel, execute and replace branches of `process` begin with.
unfoldable pub route : BookManager → ℕ → Option (ℕ × OrderBook)
route m id = elim (Table.find id m.order_to_symbol) [
  | none ↦ none
  | some key ↦ elim (Table.find key m.books) [ none ↦ none | some b ↦ some (key, b) ]
]

-- Such a branch: the book under `key` is changed in place, and told of.
abbrev pub change_book : BookManager → ℕ → OrderBook → ℕ → ℕ → BookManager × BookUpdate
change_book m key book recv_ts now =
    (record m { books = Table.assign key book m.books }, make_update book recv_ts now)

pub on_message : BookManager → ParsedMessage → ℕ → ℕ → BookManager × BookUpdate
on_message m (Messages.ParsedMessage.add_order msg) recv_ts now =
    let book = get_or_create m msg.symbol in
    let routed = Table.assign msg.order_id msg.symbol m.order_to_symbol in
    let book' = (add_order book msg.order_id msg.side msg.price msg.quantity 0).0 in
    change_book (record m { order_to_symbol = routed }) msg.symbol book' recv_ts now
on_message m (Messages.ParsedMessage.cancel_order msg) recv_ts now = elim (route m msg.order_id) [
  | none ↦ (m, no_update)
  | some (key, book) ↦
      let unrouted = Table.erase msg.order_id m.order_to_symbol in
      change_book (record m { order_to_symbol = unrouted }) key (cancel_order book msg.order_id).0
        recv_ts now
]
on_message m (Messages.ParsedMessage.execute_order msg) recv_ts now = elim (route m msg.order_id) [
  | none ↦ (m, no_update)
  | some (key, book) ↦
      change_book m key (execute_order book msg.order_id msg.exec_quantity).0 recv_ts now
]
on_message m (Messages.ParsedMessage.replace_order msg) recv_ts now = elim (route m msg.order_id) [
  | none ↦ (m, no_update)
  | some (key, book) ↦
      change_book m key (replace_order book msg.order_id msg.new_price msg.new_quantity).0 recv_ts
        now
]
on_message m (Messages.ParsedMessage.trade_message msg) recv_ts now =
    change_book m msg.symbol (get_or_create m msg.symbol) recv_ts now

-- `BookManager::process`
unfoldable pub process : BookManager → ParsedEvent → ℕ → BookManager × BookUpdate
unfolding on_message
process m event now = on_message m event.message event.receive_timestamp now

unfoldable pub get_book : BookManager → ℕ → Option OrderBook
get_book m symbol = Table.find symbol m.books

unfoldable pub get_all_symbols : BookManager → List ℕ
get_all_symbols m = map (λ e. e.1.symbol) m.books

-- `later` is the clock reading at each key.
unfoldable pub get_snapshot : BookManager → ℕ → (ℕ → ℕ) → List BookUpdate
get_snapshot m now later = map (λ e. make_update e.1 now (later e.0)) m.books

unfoldable pub reset : BookManager → BookManager
reset m = new_manager
