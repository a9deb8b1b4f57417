-- ===== src/Simulator/Matching/Rounds.antt =====
-- One round of the matching loop.
use mathlib.Core.Option
use real_time_market_data_fe.Base.{
  ℕ, ◌+◌, ◌≤◌, ◌<◌, ◌≡◌, ◌≢◌, Bool, ◌==◌, leb, min, if◌then◌else◌, Option-cases, none, some, inl,
  inr, arith, length, ◌-◌, ap, ◌∙◌,
}
use real_time_market_data_fe.Base.Table
use real_time_market_data_fe.Base.Table.{
  HasUniqueKeys, HasUniqueKeys-erase, HasUniqueKeys-modify, total, total-erase, total-modify,
  length-erase, length-modify, find-erase, find-modify,
}
use real_time_market_data_fe.Base.Ordered.{less, greater}
use real_time_market_data_fe.Core.Order.{Order, buy, sell}
use real_time_market_data_fe.Simulator.Book.{
  SimOrderBook, execute, best_loop, best_bid_order, best_ask_order,
}
use real_time_market_data_fe.Simulator.Book.Best.{best_loop-found}
use real_time_market_data_fe.Simulator.Matching.{Crossing, crossing, match_qty, execute_both}

-- What an order adds to its side.
abbrev pub open_on : ℕ → Order → ℕ
open_on side o = if o.side == side then o.remaining_quantity else 0

module _ (b : SimOrderBook) (id : ℕ) (o : Order) (u : HasUniqueKeys b.orders)
    (f : Table.find id b.orders ≡ some o) where
  best_side :
      (better : ℕ → ℕ → Bool) (side : ℕ)
      → Option.map (λ (r : ℕ × ℕ). r.0) (best_loop better side none b.orders) ≡ some id
      → o.side ≡ side
  best_side better side e = elim (Option-cases (best_loop better side none b.orders)) [
    | inl n ↦ ground (arith, n, e)
    | inr (r, q) ↦ elim (best_loop-found better side b.orders none r.0 r.1 u q) [
      | inl never ↦ cc
      | inr (w, found, s, p) ↦ ground (arith, q, e, found, f, s)
    ]
  ]

  bid_side : best_bid_order b ≡ some id → o.side ≡ buy
  unfolding best_bid_order
  bid_side = best_side greater buy

  ask_side : best_ask_order b ≡ some id → o.side ≡ sell
  unfolding best_ask_order
  ask_side = best_side less sell

-- The orders of a crossing are in the book, one on each side, and their prices cross.
pub crossing_lem :
    (b : SimOrderBook) (c : Crossing)
    → HasUniqueKeys b.orders
    → crossing b ≡ some c
    → (Table.find c.bid_id b.orders ≡ some c.bid)
      × (Table.find c.ask_id b.orders ≡ some c.ask)
      × (c.bid.side ≡ buy)
      × (c.ask.side ≡ sell)
      × (c.ask.price ≤ c.bid.price)
unfolding crossing
crossing_lem b c u e = ground (arith, e, bid_side b c.bid_id c.bid u, ask_side b c.ask_id c.ask u)

module _ (b : SimOrderBook) (id qty : ℕ) (o : Order) (u : HasUniqueKeys b.orders)
    (e : Table.find id b.orders ≡ some o) where
  pub execute-HasUniqueKeys : HasUniqueKeys (execute b id qty).0.orders
  unfolding execute
  execute-HasUniqueKeys = ground (
    arith,
    e,
    HasUniqueKeys-erase id b.orders u,
    HasUniqueKeys-modify id (λ _. record o { remaining_quantity = o.remaining_quantity - qty })
        b.orders u,
  )

  pub execute-length :
      length (execute b id qty).0.orders + (if leb o.remaining_quantity qty then 1 else 0)
      ≡ length b.orders
  unfolding execute
  execute-length = ground (
    arith,
    e,
    length-erase id b.orders o u e,
    length-modify id (λ _. record o { remaining_quantity = o.remaining_quantity - qty }) b.orders,
  )

  pub execute-total :
      (side : ℕ)
      → total (open_on side) (execute b id qty).0.orders
          + (if o.side == side then min qty o.remaining_quantity else 0)
        ≡ total (open_on side) b.orders
  unfolding execute
  execute-total side = ground (
    arith,
    e,
    total-erase (open_on side) id b.orders o u e,
    total-modify (open_on side) id
        (λ _. record o { remaining_quantity = o.remaining_quantity - qty }) b.orders o u e,
  )

  pub execute-find :
      (j : ℕ) → id ≢ j → Table.find j (execute b id qty).0.orders ≡ Table.find j b.orders
  unfolding execute
  execute-find j ne = ground (
    arith,
    e,
    find-erase id j b.orders,
    find-modify id j (λ _. record o { remaining_quantity = o.remaining_quantity - qty }) b.orders,
  )

module _ (b : SimOrderBook) (c : Crossing) (u : HasUniqueKeys b.orders)
    (e : crossing b ≡ some c) where
  apart : c.bid_id ≢ c.ask_id
  apart q =
      let (f, g, s, t, le) = crossing_lem b c u e in
      let same : c.bid ≡ c.ask = ground (arith, f, g, q) in
      ground (arith, s, t, ap (λ (o : Order). o.side) same)

  abbrev after_bid : SimOrderBook
  after_bid = (execute b c.bid_id (match_qty c)).0

  after_bid_unique : HasUniqueKeys after_bid.orders
  after_bid_unique = execute-HasUniqueKeys b c.bid_id (match_qty c) c.bid u (crossing_lem b c u e).0

  find-after_bid : Table.find c.ask_id after_bid.orders ≡ some c.ask
  find-after_bid =
      execute-find b c.bid_id (match_qty c) c.bid u (crossing_lem b c u e).0 c.ask_id apart
      ∙ (crossing_lem b c u e).1

  pub execute_both-HasUniqueKeys : HasUniqueKeys (execute_both b c).orders
  unfolding execute_both
  execute_both-HasUniqueKeys =
      execute-HasUniqueKeys after_bid c.ask_id (match_qty c) c.ask after_bid_unique find-after_bid

  -- One of the two orders is filled.
  pub execute_both-length : length (execute_both b c).orders < length b.orders
  unfolding execute_both
  execute_both-length = ground (
    arith,
    execute-length b c.bid_id (match_qty c) c.bid u (crossing_lem b c u e).0,
    execute-length after_bid c.ask_id (match_qty c) c.ask after_bid_unique find-after_bid,
  )

  -- Both sides lose what is traded.
  pub execute_both-total :
      (total (open_on buy) (execute_both b c).orders + match_qty c ≡ total (open_on buy) b.orders)
      × (total (open_on sell) (execute_both b c).orders + match_qty c
          ≡ total (open_on sell) b.orders)
  unfolding execute_both
  execute_both-total =
      let lem = crossing_lem b c u e in
      ground (
        arith,
        lem,
        execute-total b c.bid_id (match_qty c) c.bid u lem.0 buy,
        execute-total b c.bid_id (match_qty c) c.bid u lem.0 sell,
        execute-total after_bid c.ask_id (match_qty c) c.ask after_bid_unique find-after_bid buy,
        execute-total after_bid c.ask_id (match_qty c) c.ask after_bid_unique find-after_bid sell,
      )
