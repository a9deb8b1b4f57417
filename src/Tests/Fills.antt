-- ===== src/Tests/Fills.antt =====
-- The fill manager at a concrete fill; its portfolio only counts.
use real_time_market_data_fe.Base.{ℕ, ◌+◌, refl, [], ◌∷◌, false}
use real_time_market_data_fe.Base.Table.{total}
use real_time_market_data_fe.Oms.Types.{acked, OmsOrder, FillReport}
use real_time_market_data_fe.Oms.Manager.{new_order_manager}
use real_time_market_data_fe.Oms.FillManager.{FillManager, Tallies, on_fill, on_fill-Tallies}

abbrev an_acked_order : OmsOrder
an_acked_order = record {
  order_id = 1;
  symbol = 7;
  side = 1;
  type = 1;
  price = 100;
  quantity = 10;
  filled_quantity = 0;
  state = acked;
  created = 1;
  sent_at = 2;
  acked_at = 3;
  last_fill = 0;
}

abbrev report : FillReport
report = record {
  order_id = 1;
  fill_price = 100;
  fill_quantity = 4;
  timestamp = 9;
  is_final = false;
}

abbrev counting : ℕ → ℕ → ℕ → ℕ → ℕ → ℕ → ℕ
counting timestamp symbol side price quantity n = n + 1

abbrev one_filled : FillManager ℕ
one_filled = record {
  order_mgr = record new_order_manager { orders = (1, an_acked_order) ∷ []; next_id = 2 };
  portfolio = 0;
  total_fills = 1;
  total_volume = 3;
  stats = (7, record { fill_count = 1; total_volume = 3 }) ∷ [];
}

one_filled-Tallies : Tallies one_filled
unfolding total
one_filled-Tallies = record { fills = refl; volume = refl }

on_fill-Tallies_example : Tallies (on_fill counting one_filled report (λ k. k)).0
on_fill-Tallies_example = on_fill-Tallies counting one_filled report (λ k. k) one_filled-Tallies
