-- ===== src/Oms/Validator.antt =====
-- include/qf/oms/order_validator.hpp and src/oms/order_validator.cpp. The set of known symbols is a
-- list; the reasons are left out.
use real_time_market_data_fe.Base.{ℕ, ◌==◌, ◌&&◌, ◌||◌, if◌then◌else◌, Bool, false, List, [], ◌∷◌}
use real_time_market_data_fe.Oms.Manager.{Decision}

unfoldable pub is_known : ℕ → List ℕ → Bool
is_known symbol [] = false
is_known symbol (s ∷ known) = s == symbol || is_known symbol known

unfoldable pub add_known_symbol : List ℕ → ℕ → List ℕ
add_known_symbol known symbol = if is_known symbol known then known else symbol ∷ known

-- A limit order is of type 1.
unfoldable pub validate : List ℕ → Decision → Bool
validate known d =
    if d.quantity == 0
    then false
    else if d.order_type == 1 && d.limit_price == 0
    then false
    else is_known d.symbol known
