-- ===== src/Core/PipelineTypes.antt =====
-- include/qf/core/pipeline_types.hpp: what passes between the stages.
use real_time_market_data_fe.Base.{ℕ, Option, none, List}
use real_time_market_data_fe.Core.Order.{PriceLevel}
use real_time_market_data_fe.Protocol.Messages.{ParsedMessage}

-- The first `length` bytes of the packet's array.
pub record RawPacket : Type 0 where
  pub bytes : List ℕ
  pub receive_timestamp : ℕ

pub record ParsedEvent : Type 0 where
  pub message : ParsedMessage
  pub receive_timestamp : ℕ

pub record BookUpdate : Type 0 where
  pub symbol : ℕ
  pub best_bid : Option PriceLevel
  pub best_ask : Option PriceLevel
  pub receive_timestamp : ℕ
  pub book_timestamp : ℕ

-- `BookUpdate{}`
abbrev pub no_update : BookUpdate
no_update = record {
  symbol = 0;
  best_bid = none;
  best_ask = none;
  receive_timestamp = 0;
  book_timestamp = 0;
}
