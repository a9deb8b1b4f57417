-- ===== src/Core/Book/Range.antt =====
-- A book whose orders are small enough together stays in range.
use real_time_market_data_fe.Base.{ℕ, ◌≤◌, ◌<◌, Bool, [], ◌∷◌, arith, length}
use real_time_market_data_fe.Base.Table.{total}
use real_time_market_data_fe.Base.Words.{u32_mod}
use real_time_market_data_fe.Core.Order.{Order, OrderStore}
use real_time_market_data_fe.Core.Book.Sums.{quantity, count, InRange}

quantity-total :
    (st : OrderStore) (s : Bool) (p : ℕ)
    → quantity st s p ≤ total (λ (o : Order). o.remaining_quantity) st
unfolding total
quantity-total [] s p = omega arith
quantity-total ((k, o) ∷ st) s p = ground (arith, quantity-total st s p)

count-length : (st : OrderStore) (s : Bool) (p : ℕ) → count st s p ≤ length st
unfolding total
count-length [] s p = omega arith
count-length ((k, o) ∷ st) s p = ground (arith, count-length st s p)

pub InRange-of_total :
    (st : OrderStore)
    → total (λ (o : Order). o.remaining_quantity) st < u32_mod
    → length st < u32_mod
    → InRange st
InRange-of_total st h k s p =
    (omega (arith, quantity-total st s p), omega (arith, count-length st s p))
