-- ===== src/Tests/Matches.antt =====
-- The matching engine on a crossed book.
use real_time_market_data_fe.Base.{ℕ, ◌+◌, ◌<◌, ◌≡◌, refl, arith, some, [], ◌∷◌}
use real_time_market_data_fe.Base.Table
use real_time_market_data_fe.Base.Table.{HasUniqueKeys, total}
use real_time_market_data_fe.Core.Order.{Order, buy, sell}
use real_time_market_data_fe.Simulator.Book.{
  SimOrderBook, execute, best_loop, best_bid_order, best_ask_order,
}
use real_time_market_data_fe.Simulator.Matching.{crossing, execute_both, match_loop, try_match}
use real_time_market_data_fe.Simulator.Matching.Rounds.{open_on}
use real_time_market_data_fe.Simulator.Matching.Uncrossed.{
  traded, try_match-uncrossed, try_match-total,
}

abbrev order : ℕ → ℕ → ℕ → ℕ → Order
order id side price qty = record {
  order_id = id;
  symbol = 7;
  side = side;
  price = price;
  remaining_quantity = qty;
  timestamp = 0;
}

-- Bids 101 and 99, asks 100 and 105.
abbrev crossed : SimOrderBook
crossed = record {
  orders =
      (1, order 1 1 101 10)
      ∷ (2, order 2 2 100 4)
      ∷ (3, order 3 1 99 5)
      ∷ (4, order 4 2 105 5)
      ∷ [];
  order_ids = 1 ∷ 2 ∷ 3 ∷ 4 ∷ [];
}

crossed-HasUniqueKeys : HasUniqueKeys crossed.orders
crossed-HasUniqueKeys = ground arith

left_bid : Table.find 1 (try_match crossed 7).0.orders ≡ some (order 1 1 101 6)
unfolding try_match match_loop crossing execute_both execute best_bid_order best_ask_order best_loop
    Table.find Table.erase Table.modify
left_bid = refl

left_ask : Table.find 4 (try_match crossed 7).0.orders ≡ some (order 4 2 105 5)
unfolding try_match match_loop crossing execute_both execute best_bid_order best_ask_order best_loop
    Table.find Table.erase Table.modify
left_ask = refl

try_match-uncrossed_example : 101 < 105
try_match-uncrossed_example =
    try_match-uncrossed crossed 7 1 4 (order 1 1 101 6) (order 4 2 105 5) crossed-HasUniqueKeys
      left_bid left_ask refl refl

try_match-total_example :
    let (b', trades) = try_match crossed 7 in
    (total (open_on buy) b'.orders + traded trades ≡ total (open_on buy) crossed.orders)
    × (total (open_on sell) b'.orders + traded trades ≡ total (open_on sell) crossed.orders)
try_match-total_example = try_match-total crossed 7 crossed-HasUniqueKeys
