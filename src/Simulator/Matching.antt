-- ===== src/Simulator/Matching.antt =====
-- include/qf/simulator/sim_matching_engine.hpp and src/simulator/sim_matching_engine.cpp.
pub mod Rounds
pub mod Uncrossed
use real_time_market_data_fe.Base.{
  ℕ, zero, suc, min, ltb, if◌then◌else◌, Option, none, some, List, [], ◌∷◌, length,
}
use real_time_market_data_fe.Base.Table
use real_time_market_data_fe.Core.Order.{Order}
use real_time_market_data_fe.Protocol.Messages.{TradeMessage}
use real_time_market_data_fe.Simulator.Book.{SimOrderBook, execute, best_bid_order, best_ask_order}

pub record Crossing : Type 0 where
  pub bid_id : ℕ
  pub ask_id : ℕ
  pub bid : Order
  pub ask : Order

-- The tests of the loop of `try_match`: nothing is where it breaks.
unfoldable pub crossing : SimOrderBook → Option Crossing
crossing b = elim (best_bid_order b) [
  | none ↦ none
  | some bid_id ↦ elim (best_ask_order b) [
    | none ↦ none
    | some ask_id ↦ elim (Table.find bid_id b.orders) [
      | none ↦ none
      | some bid ↦ elim (Table.find ask_id b.orders) [
        | none ↦ none
        | some ask ↦
            if ltb bid.price ask.price
            then none
            else some (record { bid_id = bid_id; ask_id = ask_id; bid = bid; ask = ask })
      ]
    ]
  ]
]

abbrev pub match_qty : Crossing → ℕ
match_qty c = min (c.bid).remaining_quantity (c.ask).remaining_quantity

abbrev pub trade_of : ℕ → Crossing → TradeMessage
trade_of symbol c = record {
  symbol = symbol;
  price = (c.ask).price;
  quantity = match_qty c;
  buy_order_id = c.bid_id;
  sell_order_id = c.ask_id;
}

unfoldable pub execute_both : SimOrderBook → Crossing → SimOrderBook
execute_both b c = (execute (execute b c.bid_id (match_qty c)).0 c.ask_id (match_qty c)).0

-- The loop of `try_match`. Each round takes at least one order out of the book, so as much fuel as
-- orders is enough.
unfoldable pub match_loop : ℕ → ℕ → SimOrderBook → SimOrderBook × List TradeMessage
match_loop zero symbol b = (b, [])
match_loop (suc fuel) symbol b = elim (crossing b) [
  | none ↦ (b, [])
  | some c ↦
      let (b', trades) = match_loop fuel symbol (execute_both b c) in
      (b', trade_of symbol c ∷ trades)
]

unfoldable pub try_match : SimOrderBook → ℕ → SimOrderBook × List TradeMessage
try_match b symbol = match_loop (length b.orders) symbol b
