-- ===== src/Core/Book/Top.antt =====
-- What the top of a consistent book tells.
use real_time_market_data_fe.Base.{
  All, ◌&&◌, ℕ, ◌<◌, ◌≡◌, Bool, true, false, Option, none, some, [], ◌∷◌, arith, Option-cases,
  Bool-cases, inl, inr,
}
use real_time_market_data_fe.Base.Table
use real_time_market_data_fe.Base.Table.{Table, total-find, HasUniqueKeys, All-of_find}
use real_time_market_data_fe.Base.Ordered.{less, greater, IsOrdered, IsAfter-find}
use real_time_market_data_fe.Core.Order.{Order, PriceLevel, OrderStore}
use real_time_market_data_fe.Core.Book.{
  OrderBook, best_bid, best_ask, best_bid_qty, best_ask_qty, first_price, first_quantity,
}
use real_time_market_data_fe.Core.Book.Levels.{Shows}
use real_time_market_data_fe.Core.Book.Sides.{On}
use real_time_market_data_fe.Core.Book.Sums.{count_at, quantity, count}
use real_time_market_data_fe.Core.Book.Consistency.{IsConsistent}

-- `best` is the first price of the live orders of side `s`, and `none` if there are none.
abbrev pub IsBest : (ℕ → ℕ → Bool) → OrderStore → Bool → Option ℕ → Type 0
IsBest before st s none = All (λ (e : ℕ × Order). On s e.1.side ≡ false) st
IsBest before st s (some p) =
    (0 < count st s p) × All (λ (e : ℕ × Order). (On s e.1.side && before e.1.price p) ≡ false) st

module _ (before : ℕ → ℕ → Bool) (st : OrderStore) (s : Bool) where
  live_count :
      (id : ℕ) (o : Order) → Table.find id st ≡ some o → On s o.side ≡ true → 0 < count st s o.price
  live_count id o e h = ground (arith, total-find (count_at s o.price) id st o e)

  first_price-IsBest :
      (irr : (a : ℕ) → before a a ≡ false)
      (asym : (a b : ℕ) → before a b ≡ true → before b a ≡ false) (ls : Table PriceLevel)
      → HasUniqueKeys st
      → Shows (quantity st s) (count st s) ls
      → IsOrdered before ls
      → IsBest before st s (first_price ls)
  unfolding Table.find
  first_price-IsBest irr asym [] u sh h =
      All-of_find (λ (o : Order). On s o.side ≡ false) st u
        (λ id o e. elim (Bool-cases (On s o.side)) [
          | inl y ↦ ground (arith, sh o.price, live_count id o e y)
          | inr n ↦ n
        ])
  first_price-IsBest irr asym ((p, l) ∷ ls) u sh h = (
    ground (arith, sh p),
    All-of_find (λ (o : Order). (On s o.side && before o.price p) ≡ false) st u
        (λ id o e. elim (Bool-cases (On s o.side)) [
          | inl y ↦ rw y (behind id o e y)
          | inr n ↦ rw n
        ]),
  )
    where
      behind :
          (id : ℕ) (o : Order)
          → Table.find id st ≡ some o
          → On s o.side ≡ true
          → before o.price p ≡ false
      behind id o e y = elim (Option-cases (Table.find o.price ls)) [
        | inl none_left ↦ ground (arith, sh o.price, live_count id o e y, irr p, none_left)
        | inr (m, found) ↦ asym p o.price (IsAfter-find before p o.price ls m h.0 found)
      ]

  first_quantity_lem :
      (ls : Table PriceLevel) (p : ℕ)
      → Shows (quantity st s) (count st s) ls
      → first_price ls ≡ some p
      → first_quantity ls ≡ quantity st s p
  unfolding Table.find
  first_quantity_lem [] p sh e = cc
  first_quantity_lem ((i, l) ∷ ls) p sh e = ground (arith, sh p)

-- In a consistent book `best_bid` is the highest price of the live buy orders and `best_ask` the
-- lowest of the live sell orders, each empty exactly where there is no such order.
pub top_prices :
    (b : OrderBook)
    → IsConsistent b
    → IsBest greater b.store true (best_bid b) × IsBest less b.store false (best_ask b)
unfolding best_bid best_ask
top_prices b v = (
  first_price-IsBest greater b.store true (λ a. ground arith) (λ a c h. ground arith) b.bids
      v.unique (v.shown true) v.ordered.0,
  first_price-IsBest less b.store false (λ a. ground arith) (λ a c h. ground arith) b.asks v.unique
      (v.shown false) v.ordered.1,
)

-- In a consistent book with orders on both sides, `best_bid_qty` is the sum of the buy orders at the
-- best bid and `best_ask_qty` the sum of the sell orders at the best ask.
pub top_quantities :
    (b : OrderBook) (p q : ℕ)
    → IsConsistent b
    → best_bid b ≡ some p
    → best_ask b ≡ some q
    → (best_bid_qty b ≡ quantity b.store true p) × (best_ask_qty b ≡ quantity b.store false q)
unfolding best_bid best_ask best_bid_qty best_ask_qty
top_quantities b p q v ep eq = (
  first_quantity_lem greater b.store true b.bids p (v.shown true) ep,
  first_quantity_lem less b.store false b.asks q (v.shown false) eq,
)
