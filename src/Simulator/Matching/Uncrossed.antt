-- ===== src/Simulator/Matching/Uncrossed.antt =====
-- What `try_match` leaves.
use real_time_market_data_fe.Base.{
  ℕ, zero, suc, ◌+◌, ◌≤◌, ◌<◌, ◌≡◌, refl, Bool, Option-cases, none, some, List, [], ◌∷◌, inl, inr,
  arith, length,
}
use real_time_market_data_fe.Base.Table
use real_time_market_data_fe.Base.Table.{HasUniqueKeys, total}
use real_time_market_data_fe.Base.Ordered.{less, greater}
use real_time_market_data_fe.Core.Order.{Order, OrderStore, buy, sell}
use real_time_market_data_fe.Protocol.Messages.{TradeMessage}
use real_time_market_data_fe.Simulator.Book.{
  SimOrderBook, best_loop, best_bid_order, best_ask_order,
}
use real_time_market_data_fe.Simulator.Book.Best.{best_loop-found, best_loop-beats}
use real_time_market_data_fe.Simulator.Matching.{
  Crossing, crossing, trade_of, execute_both, match_loop, try_match,
}
use real_time_market_data_fe.Simulator.Matching.Rounds.{
  open_on, execute_both-HasUniqueKeys, execute_both-length, execute_both-total,
}

abbrev pub traded : List TradeMessage → ℕ
traded [] = 0
traded (t ∷ ts) = t.quantity + traded ts

no_best : (t : OrderStore) → length t ≤ 0 → best_loop greater buy none t ≡ none
unfolding best_loop
no_best [] h = refl
no_best (e ∷ t) h = absurd (omega arith)

crossing-empty : (b : SimOrderBook) → length b.orders ≤ 0 → crossing b ≡ none
unfolding crossing best_bid_order
crossing-empty b h = ground (arith, no_best b.orders h)

match_loop-zero : (symbol : ℕ) (b : SimOrderBook) → match_loop zero symbol b ≡ (b, [])
unfolding match_loop
match_loop-zero symbol b = refl

match_loop-none :
    (fuel symbol : ℕ) (b : SimOrderBook)
    → crossing b ≡ none
    → match_loop (suc fuel) symbol b ≡ (b, [])
unfolding match_loop
match_loop-none fuel symbol b e = ground (arith, e)

match_loop-some :
    (fuel symbol : ℕ) (b : SimOrderBook) (c : Crossing)
    → crossing b ≡ some c
    → let (b', trades) = match_loop fuel symbol (execute_both b c) in
      match_loop (suc fuel) symbol b ≡ (b', trade_of symbol c ∷ trades)
unfolding match_loop
match_loop-some fuel symbol b c e = ground (arith, e)

match_loop-ends :
    (fuel symbol : ℕ) (b : SimOrderBook)
    → HasUniqueKeys b.orders
    → length b.orders ≤ fuel
    → HasUniqueKeys (match_loop fuel symbol b).0.orders
      × (crossing (match_loop fuel symbol b).0 ≡ none)
match_loop-ends zero symbol b u h = rw (match_loop-zero symbol b) (u, crossing-empty b h)
match_loop-ends (suc fuel) symbol b u h = elim (Option-cases (crossing b)) [
  | inl e ↦ rw (match_loop-none fuel symbol b e) (u, e)
  | inr (c, e) ↦ rw (match_loop-some fuel symbol b c e) (
      match_loop-ends fuel symbol (execute_both b c) (execute_both-HasUniqueKeys b c u e)
        (omega (arith, execute_both-length b c u e)))
]

match_loop-total :
    (fuel symbol : ℕ) (b : SimOrderBook)
    → HasUniqueKeys b.orders
    → let (b', trades) = match_loop fuel symbol b in
      (total (open_on buy) b'.orders + traded trades ≡ total (open_on buy) b.orders)
      × (total (open_on sell) b'.orders + traded trades ≡ total (open_on sell) b.orders)
match_loop-total zero symbol b u = rw (match_loop-zero symbol b) (omega arith, omega arith)
match_loop-total (suc fuel) symbol b u = elim (Option-cases (crossing b)) [
  | inl e ↦ rw (match_loop-none fuel symbol b e) (omega arith, omega arith)
  | inr (c, e) ↦
      let (p, q) =
        match_loop-total fuel symbol (execute_both b c) (execute_both-HasUniqueKeys b c u e) in
      let (r, s) = execute_both-total b c u e in
      rw (match_loop-some fuel symbol b c e) (omega (arith, p, r), omega (arith, q, s))
]

found_best :
    (better : ℕ → ℕ → Bool) (side : ℕ) (t : OrderStore) (r : ℕ × ℕ)
    → HasUniqueKeys t
    → best_loop better side none t ≡ some r
    → (o : Order) × (Table.find r.0 t ≡ some o) × (o.price ≡ r.1)
found_best better side t r u e = elim (best_loop-found better side t none r.0 r.1 u e) [
  | inl never ↦ cc
  | inr (o, f, s, p) ↦ (o, f, p)
]

uncrossed :
    (b : SimOrderBook) (i j : ℕ) (o p : Order)
    → HasUniqueKeys b.orders
    → crossing b ≡ none
    → Table.find i b.orders ≡ some o
    → Table.find j b.orders ≡ some p
    → o.side ≡ buy
    → p.side ≡ sell
    → o.price < p.price
unfolding crossing best_bid_order best_ask_order
uncrossed b i j o p u none_crosses f g s t =
    let (x, ex, hx) =
      best_loop-beats greater buy (λ a. ground arith) (λ a c h. ground arith)
        (λ a c d h k. ground arith) b.orders none i o f s in
    let (y, ey, hy) =
      best_loop-beats less sell (λ a. ground arith) (λ a c h. ground arith)
        (λ a c d h k. ground arith) b.orders none j p g t in
    let (bid, fx, px) = found_best greater buy b.orders x u ex in
    let (ask, fy, py) = found_best less sell b.orders y u ey in
    ground (arith, none_crosses, ex, ey, hx, hy, fx, fy, px, py)

-- After `try_match` on a book whose ids are unique, every buy order that is left is priced below every
-- sell order that is left.
pub try_match-uncrossed :
    (b : SimOrderBook) (symbol i j : ℕ) (o p : Order)
    → HasUniqueKeys b.orders
    → Table.find i (try_match b symbol).0.orders ≡ some o
    → Table.find j (try_match b symbol).0.orders ≡ some p
    → o.side ≡ buy
    → p.side ≡ sell
    → o.price < p.price
unfolding try_match
try_match-uncrossed b symbol i j o p u f g s t =
    let (v, e) = match_loop-ends (length b.orders) symbol b u (omega arith) in
    uncrossed (match_loop (length b.orders) symbol b).0 i j o p v e f g s t

-- On a book whose ids are unique, `try_match` takes from the open quantity of each side just what its
-- trades sum up to.
pub try_match-total :
    (b : SimOrderBook) (symbol : ℕ)
    → HasUniqueKeys b.orders
    → let (b', trades) = try_match b symbol in
      (total (open_on buy) b'.orders + traded trades ≡ total (open_on buy) b.orders)
      × (total (open_on sell) b'.orders + traded trades ≡ total (open_on sell) b.orders)
unfolding try_match
try_match-total b symbol u = match_loop-total (length b.orders) symbol b u
