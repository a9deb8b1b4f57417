-- ===== src/Core/Manager/Integrity.antt =====
-- All books of a manager stay consistent, and what an order id that is used again does to them.
use real_time_market_data_fe.Base.{
  ℕ, ◌≡◌, ◌≢◌, Option-cases, inl, inr, Option, none, some, arith, All, subst, sym, ◌∙◌,
}
use real_time_market_data_fe.Base.Table
use real_time_market_data_fe.Base.Table.{Table, find-assign, find-erase, All-find, All-assign}
use real_time_market_data_fe.Core.Book.{OrderBook, add_order, cancel_order}
use real_time_market_data_fe.Core.Book.Sums.{InRange}
use real_time_market_data_fe.Core.Book.Consistency.{IsConsistent, new_book-IsConsistent}
use real_time_market_data_fe.Core.Book.Runs.{Command, step, step-IsConsistent}
use real_time_market_data_fe.Core.Manager.{BookManager, get_or_create, route, process}
use real_time_market_data_fe.Protocol.Messages.{
  ParsedMessage, AddOrder, CancelOrder, ExecuteOrder, ReplaceOrder, TradeMessage,
}
use real_time_market_data_fe.Protocol.Messages
use real_time_market_data_fe.Core.Manager.Routing.{
  command, apply, target, looked_up, target-looked_up,
}

-- Every book is consistent.
abbrev pub AllConsistent : BookManager → Type 0
AllConsistent m = All (λ (e : ℕ × OrderBook). IsConsistent e.1) m.books

-- No level's sum leaves 32 bits in the book that the message goes to, before and after it.
abbrev pub TargetInRange : ParsedMessage → Option (ℕ × OrderBook) → Type 0
TargetInRange msg none = Unit
TargetInRange msg (some (key, b)) = InRange b.store × InRange (apply b (command msg)).store

get_or_create-IsConsistent :
    (m : BookManager) (symbol : ℕ) → AllConsistent m → IsConsistent (get_or_create m symbol)
unfolding get_or_create
get_or_create-IsConsistent m symbol v = elim (Option-cases (Table.find symbol m.books)) [
  | inl e ↦ rw e (new_book-IsConsistent symbol)
  | inr (b, e) ↦ rw e (All-find IsConsistent symbol m.books b v e)
]

route-IsConsistent :
    (m : BookManager) (id key : ℕ) (b : OrderBook)
    → AllConsistent m
    → route m id ≡ some (key, b)
    → IsConsistent b
unfolding route
route-IsConsistent m id key b v e =
    let found : Table.find key m.books ≡ some b = ground arith in
    All-find IsConsistent key m.books b v found

looked_up-IsConsistent :
    (m : BookManager) (msg : ParsedMessage) (key : ℕ) (b : OrderBook)
    → AllConsistent m
    → looked_up m msg ≡ some (key, b)
    → IsConsistent b
looked_up-IsConsistent m (Messages.ParsedMessage.add_order msg) key b v e =
    let same : get_or_create m msg.symbol ≡ b = ground arith in
    subst IsConsistent same (get_or_create-IsConsistent m msg.symbol v)
looked_up-IsConsistent m (Messages.ParsedMessage.trade_message msg) key b v e =
    let same : get_or_create m msg.symbol ≡ b = ground arith in
    subst IsConsistent same (get_or_create-IsConsistent m msg.symbol v)
looked_up-IsConsistent m (Messages.ParsedMessage.cancel_order msg) key b v e =
    route-IsConsistent m msg.order_id key b v e
looked_up-IsConsistent m (Messages.ParsedMessage.execute_order msg) key b v e =
    route-IsConsistent m msg.order_id key b v e
looked_up-IsConsistent m (Messages.ParsedMessage.replace_order msg) key b v e =
    route-IsConsistent m msg.order_id key b v e

apply-IsConsistent :
    (b : OrderBook) (c : Option Command)
    → IsConsistent b
    → InRange b.store
    → InRange (apply b c).store
    → IsConsistent (apply b c)
apply-IsConsistent b none v r r' = v
apply-IsConsistent b (some c) v r r' = step-IsConsistent b c v r r'

books_after :
    (m : BookManager) (msg : ParsedMessage) (ts now : ℕ) (t : Option (ℕ × OrderBook))
    → looked_up m msg ≡ t
    → (process m (record { message = msg; receive_timestamp = ts }) now).0.books
      ≡ elim t [ none ↦ m.books | some (key, b) ↦ Table.assign key (apply b (command msg)) m.books ]
unfolding process step
books_after m (Messages.ParsedMessage.add_order msg) ts now t e = rw (← e)
books_after m (Messages.ParsedMessage.trade_message msg) ts now t e = rw (← e)
books_after m (Messages.ParsedMessage.cancel_order msg) ts now none e = ground (arith, e)
books_after m (Messages.ParsedMessage.cancel_order msg) ts now (some r) e = ground (arith, e)
books_after m (Messages.ParsedMessage.execute_order msg) ts now none e = ground (arith, e)
books_after m (Messages.ParsedMessage.execute_order msg) ts now (some r) e = ground (arith, e)
books_after m (Messages.ParsedMessage.replace_order msg) ts now none e = ground (arith, e)
books_after m (Messages.ParsedMessage.replace_order msg) ts now (some r) e = ground (arith, e)

-- Processing an event keeps every book of the manager consistent, if no level's sum leaves 32 bits in
-- the book that the event goes to.
pub process-AllConsistent :
    (m : BookManager) (msg : ParsedMessage) (ts now : ℕ)
    → AllConsistent m
    → TargetInRange msg (target m msg)
    → AllConsistent (process m (record { message = msg; receive_timestamp = ts }) now).0
process-AllConsistent m msg ts now v r = elim (Option-cases (looked_up m msg)) [
  | inl e ↦ rw (books_after m msg ts now none e) v
  | inr (k, e) ↦
      let range = subst (TargetInRange msg) (sym (target-looked_up m msg) ∙ e) r in
      rw (books_after m msg ts now (some k) e) (
        All-assign IsConsistent k.0 (apply k.1 (command msg)) m.books
          (apply-IsConsistent k.1 (command msg) (looked_up-IsConsistent m msg k.0 k.1 v e) range.0
            range.1)
          v)
]

-- The bug: an `AddOrder` takes over the route of its order id, whatever the books hold. So a book of
-- any other symbol, which may hold a live order of this id, is left as it was by the `AddOrder` and a
-- cancel of the id after it, while the cancel drops the route: no message reaches such an order now.
pub reused_id_orphans :
    (m : BookManager) (a : AddOrder) (old ts now later : ℕ) (b : OrderBook)
    → Table.find old m.books ≡ some b
    → a.symbol ≢ old
    → let m1 =
        (process m
          (record { message = Messages.ParsedMessage.add_order a; receive_timestamp = ts })
          now).0 in
      let cancel = Messages.ParsedMessage.cancel_order (record { order_id = a.order_id }) in
      let m2 = (process m1 (record { message = cancel; receive_timestamp = ts }) later).0 in
      (Table.find old m2.books ≡ some b) × (route m2 a.order_id ≡ none)
unfolding process route
reused_id_orphans m a old ts now later b e ne =
    let id = a.order_id in
    let added = (add_order (get_or_create m a.symbol) id a.side a.price a.quantity 0).0 in
    let books1 = Table.assign a.symbol added m.books in
    ground (
      arith,
      find-assign id id a.symbol m.order_to_symbol,
      find-erase id id (Table.assign id a.symbol m.order_to_symbol),
      find-assign a.symbol a.symbol added m.books,
      find-assign a.symbol old added m.books,
      find-assign a.symbol old (cancel_order added id).0 books1,
    )
