-- ===== src/Core/Book/Levels.antt =====
-- One side's price map against the numbers that it should show.

use real_time_market_data_fe.Base.{
  ℕ, ◌+◌, ◌<◌, ◌≡◌, Bool, true, ◌==◌, if◌then◌else◌, Option, none, some, arith,
}
use real_time_market_data_fe.Base.Table
use real_time_market_data_fe.Base.Table.{Table, find-erase, find-modify}
use real_time_market_data_fe.Base.Ordered.{find-insert}
use real_time_market_data_fe.Base.Words.{u32_mod, sub32}
use real_time_market_data_fe.Core.Order.{PriceLevel, add_quantity, remove_quantity}
use real_time_market_data_fe.Core.Book.{slot, deposit, withdraw, reduce_level}

-- The level that `count` orders of `quantity` in all should make: none for no order.
abbrev pub level_of : ℕ → ℕ → ℕ → Option PriceLevel
level_of p quantity count =
    if count == 0
    then none
    else some (record { price = p; total_quantity = quantity; order_count = count })

-- The map shows `quantity p` and `count p` at every price `p`.
abbrev pub Shows : (ℕ → ℕ) → (ℕ → ℕ) → Table PriceLevel → Type 0
Shows quantity count levels = (p : ℕ) → Table.find p levels ≡ level_of p (quantity p) (count p)

module _ (q c q' c' : ℕ → ℕ) (p x : ℕ) (levels : Table PriceLevel) (s : Shows q c levels) where
  pub deposit-Shows :
      (before : ℕ → ℕ → Bool)
      → ((j : ℕ) → q' j ≡ q j + (if p == j then x else 0))
      → ((j : ℕ) → c' j ≡ c j + (if p == j then 1 else 0))
      → q' p < u32_mod
      → c' p < u32_mod
      → (c p ≡ 0 → q p ≡ 0)
      → Shows q' c' (deposit before p x levels)
  unfolding deposit
  deposit-Shows before hq hc bq bc e j = ground (
    arith,
    find-insert before p j (add_quantity (slot p levels) x) levels,
    s p,
    s j,
    hq p,
    hc p,
    hq j,
    hc j,
  )

  pub withdraw-Shows :
      ((j : ℕ) → q' j + (if p == j then x else 0) ≡ q j)
      → ((j : ℕ) → c' j + (if p == j then 1 else 0) ≡ c j)
      → Shows q' c' (withdraw p x levels)
  unfolding withdraw
  withdraw-Shows hq hc j = ground (
    arith,
    find-erase p j levels,
    s p,
    s j,
    hq p,
    hc p,
    hq j,
    hc j,
    find-modify p j (λ (l : PriceLevel). (remove_quantity l x).0) levels,
  )

  -- `execute_order` at a level with an order of at least `x`.
  pub reduce_level-Shows :
      (filled : Bool)
      → ((j : ℕ) → q' j + (if p == j then x else 0) ≡ q j)
      → ((j : ℕ) → c' j + (if p == j then (if filled then 1 else 0) else 0) ≡ c j)
      → 0 < c p
      → q p < u32_mod
      → c p < u32_mod
      → Shows q' c' (reduce_level p x filled levels).0 × ((reduce_level p x filled levels).1 ≡ true)
  unfolding reduce_level
  reduce_level-Shows filled hq hc cp bq bc = (
    λ j. ground (
      arith,
      find-erase p j levels,
      s p,
      s j,
      hq p,
      hc p,
      hq j,
      hc j,
      find-modify p j (λ (l : PriceLevel). record l { total_quantity = sub32 (q p) x }) levels,
      find-modify p j
          (λ (l : PriceLevel). record l {
            total_quantity = sub32 (q p) x;
            order_count = sub32 (c p) 1;
          })
          levels,
    ),
    ground (arith, s p),
  )
