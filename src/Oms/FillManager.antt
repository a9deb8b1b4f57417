-- ===== src/Oms/FillManager.antt =====
-- include/qf/oms/fill_manager.hpp and src/oms/fill_manager.cpp, without the notional, which is a
-- double. The portfolio is a parameter: a state and its `on_fill`.
use mathlib.Core.Option
use real_time_market_data_fe.Base.{
  ℕ, ◌%◌, ◌≡◌, refl, false, if◌then◌else◌, Bool-cases, Option-cases, none, some, inl, inr, arith,
}
use real_time_market_data_fe.Base.Table
use real_time_market_data_fe.Base.Table.{Table, total, total-assign}
use real_time_market_data_fe.Base.Words.{add64, u64_mod}
use real_time_market_data_fe.Oms.Types.{FillReport}
use real_time_market_data_fe.Oms.Manager
use real_time_market_data_fe.Oms.Manager.{OrderManager, OmResult, get_order}

pub record SymbolFillStats : Type 0 where
  pub fill_count : ℕ
  pub total_volume : ℕ

abbrev pub empty_stats : SymbolFillStats
empty_stats = record { fill_count = 0; total_volume = 0 }

pub record FillManager (P : Type 0) : Type 0 where
  pub order_mgr : OrderManager
  pub portfolio : P
  pub total_fills : ℕ
  pub total_volume : ℕ
  pub stats : Table SymbolFillStats

-- `stats_for`
unfoldable pub stats_for : Table SymbolFillStats → ℕ → SymbolFillStats
stats_for stats symbol = Option.get_or (Table.find symbol stats) empty_stats

-- The statistics after a fill of `quantity`.
unfoldable pub count_fill : Table SymbolFillStats → ℕ → ℕ → Table SymbolFillStats
count_fill stats symbol quantity =
    let s = stats_for stats symbol in
    Table.assign symbol
      (record { fill_count = add64 s.fill_count 1; total_volume = add64 s.total_volume quantity })
      stats

module _ {P : Type 0} (portfolio_on_fill : ℕ → ℕ → ℕ → ℕ → ℕ → P → P) where
  unfoldable pub on_fill : FillManager P → FillReport → (ℕ → ℕ) → FillManager P × OmResult
  on_fill m r now =
      let (orders, result) = Manager.on_fill m.order_mgr r now in
      let told = record m { order_mgr = orders } in
      if result.success
      then elim (get_order orders r.order_id) [
        | none ↦ (told, record { success = false; order_id = r.order_id })
        | some o ↦ (
          record told {
            portfolio =
                portfolio_on_fill r.timestamp o.symbol o.side r.fill_price r.fill_quantity
                  m.portfolio;
            total_fills = add64 m.total_fills 1;
            total_volume = add64 m.total_volume r.fill_quantity;
            stats = count_fill m.stats o.symbol r.fill_quantity;
          },
          result,
        )
      ]
      else (told, result)

-- The totals are the sums over the symbols, as 64-bit numbers.
pub record Tallies {P : Type 0} (m : FillManager P) : Type 0 where
  pub fills : total (λ (s : SymbolFillStats). s.fill_count) m.stats % u64_mod ≡ m.total_fills
  pub volume : total (λ (s : SymbolFillStats). s.total_volume) m.stats % u64_mod ≡ m.total_volume

total-count_fill :
    (stats : Table SymbolFillStats) (symbol quantity a b : ℕ)
    → total (λ (s : SymbolFillStats). s.fill_count) stats % u64_mod ≡ a
    → total (λ (s : SymbolFillStats). s.total_volume) stats % u64_mod ≡ b
    → (total (λ (s : SymbolFillStats). s.fill_count) (count_fill stats symbol quantity) % u64_mod
        ≡ add64 a 1)
      × (total (λ (s : SymbolFillStats). s.total_volume) (count_fill stats symbol quantity)
            % u64_mod
          ≡ add64 b quantity)
unfolding count_fill stats_for
total-count_fill stats symbol quantity a b p q =
    let s = Option.get_or (Table.find symbol stats) empty_stats in
    let after : SymbolFillStats = record {
      fill_count = add64 s.fill_count 1;
      total_volume = add64 s.total_volume quantity;
    } in
    (
      omega (
        arith,
        p,
        total-assign (λ (x : SymbolFillStats). x.fill_count) symbol after empty_stats stats refl,
      ),
      omega (
        arith,
        q,
        total-assign (λ (x : SymbolFillStats). x.total_volume) symbol after empty_stats stats refl,
      ),
    )

-- Every fill, accepted or refused, leaves the total number of fills and the total volume equal to the
-- sums over the symbols, modulo 2^64, whatever the portfolio does.
pub on_fill-Tallies :
    {P : Type 0} (portfolio_on_fill : ℕ → ℕ → ℕ → ℕ → ℕ → P → P)
    → (m : FillManager P) (r : FillReport) (now : ℕ → ℕ) → Tallies m
    → Tallies (on_fill portfolio_on_fill m r now).0
unfolding on_fill
on_fill-Tallies portfolio_on_fill m r now v =
    elim (Bool-cases ((Manager.on_fill m.order_mgr r now).1.success)) [
      | inr n ↦ rw n (record { fills = v.fills; volume = v.volume })
      | inl y ↦ elim (Option-cases (get_order (Manager.on_fill m.order_mgr r now).0 r.order_id)) [
        | inl e ↦ rw (y, e) (record { fills = v.fills; volume = v.volume })
        | inr (o, e) ↦
            let t =
              total-count_fill m.stats o.symbol r.fill_quantity m.total_fills m.total_volume v.fills
                v.volume in
            rw (y, e) (record { fills = t.0; volume = t.1 })
      ]
    ]
