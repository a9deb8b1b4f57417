-- ===== src/Core/Manager/Routing.antt =====
-- Which book an event reaches.
use mathlib.Core.Option
use real_time_market_data_fe.Base.{
  ℕ, ◌≡◌, refl, ◌==◌, if◌then◌else◌, Option-cases, inl, inr, Option, none, some, arith, sym, subst,
  [], ◌∷◌, ap,
}
use real_time_market_data_fe.Base.Table
use real_time_market_data_fe.Base.Table.{Table, find-assign, find-erase}
use real_time_market_data_fe.Core.Book.{
  OrderBook, new_book, best_bid, best_ask, best_bid_qty, best_ask_qty, first_price, first_quantity,
}
use real_time_market_data_fe.Core.Book.Runs.{Command, step}
use real_time_market_data_fe.Core.Manager.{
  BookManager, no_update, get_or_create, make_update, route, process, top_level,
}
use real_time_market_data_fe.Protocol.Messages.{
  ParsedMessage, AddOrder, CancelOrder, ExecuteOrder, ReplaceOrder, TradeMessage,
}
use real_time_market_data_fe.Protocol.Messages
use real_time_market_data_fe.Core.Order.{PriceLevel}
use real_time_market_data_fe.Core.PipelineTypes.{BookUpdate}

-- The call of a book that a message stands for.
abbrev pub command : ParsedMessage → Option Command
command (Messages.ParsedMessage.add_order m) =
    some (Command.add m.order_id m.side m.price m.quantity 0)
command (Messages.ParsedMessage.cancel_order m) = some (Command.cancel m.order_id)
command (Messages.ParsedMessage.execute_order m) = some (Command.execute m.order_id m.exec_quantity)
command (Messages.ParsedMessage.replace_order m) =
    some (Command.replace m.order_id m.new_price m.new_quantity)
command (Messages.ParsedMessage.trade_message m) = none

abbrev pub apply : OrderBook → Option Command → OrderBook
apply b none = b
apply b (some c) = step b c

-- The book of a symbol, a new one if there is none.
abbrev pub book_of : Table OrderBook → ℕ → ℕ × OrderBook
book_of books symbol = elim (Table.find symbol books) [
  | none ↦ (symbol, new_book symbol)
  | some b ↦ (symbol, b)
]

-- The book of the symbol that an order id was last added under.
abbrev pub book_by_id : BookManager → ℕ → Option (ℕ × OrderBook)
book_by_id m id = elim (Table.find id m.order_to_symbol) [
  | none ↦ none
  | some symbol ↦ elim (Table.find symbol m.books) [ none ↦ none | some b ↦ some (symbol, b) ]
]

-- The book that a message goes to: by its symbol, or by the symbol of its order id.
abbrev pub target : BookManager → ParsedMessage → Option (ℕ × OrderBook)
target m (Messages.ParsedMessage.add_order msg) = some (book_of m.books msg.symbol)
target m (Messages.ParsedMessage.cancel_order msg) = book_by_id m msg.order_id
target m (Messages.ParsedMessage.execute_order msg) = book_by_id m msg.order_id
target m (Messages.ParsedMessage.replace_order msg) = book_by_id m msg.order_id
target m (Messages.ParsedMessage.trade_message msg) = some (book_of m.books msg.symbol)

-- The symbol that the order id `id` has after a message, from the one that it had.
abbrev pub symbol_after : ParsedMessage → ℕ → Option ℕ → Option ℕ
symbol_after (Messages.ParsedMessage.add_order msg) id old =
    if msg.order_id == id then some msg.symbol else old
symbol_after (Messages.ParsedMessage.cancel_order msg) id old =
    if msg.order_id == id then none else old
symbol_after (Messages.ParsedMessage.execute_order msg) id old = old
symbol_after (Messages.ParsedMessage.replace_order msg) id old = old
symbol_after (Messages.ParsedMessage.trade_message msg) id old = old

-- What an update shows of one side: the price and the quantity of its first level, counted as one.
abbrev pub ShowsTop : Table PriceLevel → Option PriceLevel → Type 0
ShowsTop [] shown = shown ≡ none
ShowsTop ((price, level) ∷ levels) shown =
    shown ≡ some (record { price = price; total_quantity = level.total_quantity; order_count = 1 })

abbrev pub Reports : BookUpdate → OrderBook → ℕ → ℕ → Type 0
Reports u b ts now =
    (u.symbol ≡ b.symbol)
    × ShowsTop b.bids u.best_bid
    × ShowsTop b.asks u.best_ask
    × (u.receive_timestamp ≡ ts)
    × (u.book_timestamp ≡ now)

-- What `process` does to the book under `j` and to the symbol of the id `id`, and what it reports,
-- given the target of the message.
abbrev pub Routed : BookManager → ParsedMessage → ℕ → ℕ → ℕ → ℕ → Option (ℕ × OrderBook) → Type 0
Routed m msg ts now j id none =
    process m (record { message = msg; receive_timestamp = ts }) now ≡ (m, no_update)
Routed m msg ts now j id (some (key, b)) =
    let b' = apply b (command msg) in
    let (m', update) = process m (record { message = msg; receive_timestamp = ts }) now in
    (Table.find j m'.books ≡ (if key == j then some b' else Table.find j m.books))
    × (Table.find id m'.order_to_symbol ≡ symbol_after msg id (Table.find id m.order_to_symbol))
    × Reports update b' ts now

top_level-ShowsTop :
    (ls : Table PriceLevel) → ShowsTop ls (top_level (first_price ls) (first_quantity ls))
top_level-ShowsTop [] = refl
top_level-ShowsTop ((p, l) ∷ ls) = refl

make_update-Reports : (b : OrderBook) (ts now : ℕ) → Reports (make_update b ts now) b ts now
unfolding make_update best_bid best_ask best_bid_qty best_ask_qty
make_update-Reports b ts now =
    (refl, top_level-ShowsTop b.bids, top_level-ShowsTop b.asks, refl, refl)

chosen :
    (symbol : ℕ) (fresh : OrderBook) (found : Option OrderBook)
    → elim found as (λ _. ℕ × OrderBook) [ none ↦ (symbol, fresh) | some b ↦ (symbol, b) ]
      ≡ (symbol, Option.get_or found fresh)
chosen symbol fresh none = refl
chosen symbol fresh (some b) = refl

-- The target as the code looks it up.
abbrev pub looked_up : BookManager → ParsedMessage → Option (ℕ × OrderBook)
looked_up m (Messages.ParsedMessage.add_order msg) = some (msg.symbol, get_or_create m msg.symbol)
looked_up m (Messages.ParsedMessage.cancel_order msg) = route m msg.order_id
looked_up m (Messages.ParsedMessage.execute_order msg) = route m msg.order_id
looked_up m (Messages.ParsedMessage.replace_order msg) = route m msg.order_id
looked_up m (Messages.ParsedMessage.trade_message msg) =
    some (msg.symbol, get_or_create m msg.symbol)

pub target-looked_up : (m : BookManager) (msg : ParsedMessage) → looked_up m msg ≡ target m msg
unfolding get_or_create route
target-looked_up m (Messages.ParsedMessage.add_order msg) =
    ap some (sym (chosen msg.symbol (new_book msg.symbol) (Table.find msg.symbol m.books)))
target-looked_up m (Messages.ParsedMessage.trade_message msg) =
    ap some (sym (chosen msg.symbol (new_book msg.symbol) (Table.find msg.symbol m.books)))
target-looked_up m (Messages.ParsedMessage.cancel_order msg) = refl
target-looked_up m (Messages.ParsedMessage.execute_order msg) = refl
target-looked_up m (Messages.ParsedMessage.replace_order msg) = refl

module _ (m : BookManager) (ts now j id : ℕ) where
  changed :
      (msg : ParsedMessage) (key : ℕ) (b : OrderBook) (routes : Table ℕ)
      → process m (record { message = msg; receive_timestamp = ts }) now ≡ (
          let b' = apply b (command msg) in
          (
            record m { order_to_symbol = routes; books = Table.assign key b' m.books },
            make_update b' ts now,
          ))
      → Table.find id routes ≡ symbol_after msg id (Table.find id m.order_to_symbol)
      → Routed m msg ts now j id (some (key, b))
  changed msg key b routes e h =
      let b' = apply b (command msg) in
      rw e (find-assign key j b' m.books, h, make_update-Reports b' ts now)

  looked_up-Routed : (msg : ParsedMessage) → Routed m msg ts now j id (looked_up m msg)
  unfolding process step
  looked_up-Routed (Messages.ParsedMessage.add_order msg) =
      changed (Messages.ParsedMessage.add_order msg) msg.symbol (get_or_create m msg.symbol)
        (Table.assign msg.order_id msg.symbol m.order_to_symbol) refl
        (find-assign msg.order_id id msg.symbol m.order_to_symbol)
  looked_up-Routed (Messages.ParsedMessage.trade_message msg) =
      changed (Messages.ParsedMessage.trade_message msg) msg.symbol (get_or_create m msg.symbol)
        m.order_to_symbol refl refl
  looked_up-Routed (Messages.ParsedMessage.cancel_order msg) =
      elim (Option-cases (route m msg.order_id)) [
        | inl e ↦ rw e (ground (arith, e))
        | inr (r, e) ↦ rw e (
            changed (Messages.ParsedMessage.cancel_order msg) r.0 r.1
              (Table.erase msg.order_id m.order_to_symbol) (ground (arith, e))
              (find-erase msg.order_id id m.order_to_symbol))
      ]
  looked_up-Routed (Messages.ParsedMessage.execute_order msg) =
      elim (Option-cases (route m msg.order_id)) [
        | inl e ↦ rw e (ground (arith, e))
        | inr (r, e) ↦ rw e (
            changed (Messages.ParsedMessage.execute_order msg) r.0 r.1 m.order_to_symbol
              (ground (arith, e)) refl)
      ]
  looked_up-Routed (Messages.ParsedMessage.replace_order msg) =
      elim (Option-cases (route m msg.order_id)) [
        | inl e ↦ rw e (ground (arith, e))
        | inr (r, e) ↦ rw e (
            changed (Messages.ParsedMessage.replace_order msg) r.0 r.1 m.order_to_symbol
              (ground (arith, e)) refl)
      ]

-- An event changes the book of its target by the one call that its message stands for and leaves
-- every other book as it was; it gives the id of an added order the message's symbol, takes it from
-- the id of a cancelled one, and leaves every other id's; and it reports the price and the quantity
-- of the first level of each side after the call, with both times. An event without a target changes
-- nothing and reports the empty update.
pub process_lem :
    (m : BookManager) (msg : ParsedMessage) (ts now j id : ℕ)
    → Routed m msg ts now j id (target m msg)
process_lem m msg ts now j id =
    subst (Routed m msg ts now j id) (target-looked_up m msg) (looked_up-Routed m ts now j id msg)
