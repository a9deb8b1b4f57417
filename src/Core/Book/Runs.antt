-- ===== src/Core/Book/Runs.antt =====
-- A book through any calls.
use real_time_market_data_fe.Base.{ℕ, List, [], ◌∷◌}
use real_time_market_data_fe.Core.Book.{
  OrderBook, add_order, cancel_order, execute_order, replace_order,
}
use real_time_market_data_fe.Core.Book.Sums.{InRange}
use real_time_market_data_fe.Core.Book.Consistency.{
  IsConsistent, add_order-IsConsistent, cancel_order-IsConsistent, execute_order-IsConsistent,
  replace_order-IsConsistent,
}

-- A client's calls.
pub data Command : Type 0 where
  add : ℕ → ℕ → ℕ → ℕ → ℕ → Command
  cancel : ℕ → Command
  execute : ℕ → ℕ → Command
  replace : ℕ → ℕ → ℕ → Command

unfoldable pub step : OrderBook → Command → OrderBook
step b (add id side price qty ts) = (add_order b id side price qty ts).0
step b (cancel id) = (cancel_order b id).0
step b (execute id x) = (execute_order b id x).0
step b (replace id price qty) = (replace_order b id price qty).0

unfoldable pub run : OrderBook → List Command → OrderBook
run b [] = b
run b (c ∷ cs) = run (step b c) cs

-- No level's sum leaves 32 bits, now and after each of the calls.
abbrev pub StaysInRange : OrderBook → List Command → Type 0
StaysInRange b [] = InRange b.store
StaysInRange b (c ∷ cs) = InRange b.store × StaysInRange (step b c) cs

InRange-now : (b : OrderBook) (cs : List Command) → StaysInRange b cs → InRange b.store
InRange-now b [] r = r
InRange-now b (c ∷ cs) r = r.0

pub step-IsConsistent :
    (b : OrderBook) (c : Command)
    → IsConsistent b
    → InRange b.store
    → InRange (step b c).store
    → IsConsistent (step b c)
unfolding step
step-IsConsistent b (add id side price qty ts) v r r' =
    add_order-IsConsistent b v id side price qty ts r'
step-IsConsistent b (cancel id) v r r' = cancel_order-IsConsistent b v id
step-IsConsistent b (execute id x) v r r' = execute_order-IsConsistent b v id x r
step-IsConsistent b (replace id price qty) v r r' = replace_order-IsConsistent b v id price qty r'

-- After any calls on a consistent book, such as a new one, every price level is the exact sum of the live orders at its
-- price, there is no level without orders, the levels are in order and no order id is used twice;
-- provided that no level's sum leaves 32 bits on the way.
pub run-IsConsistent :
    (b : OrderBook) (cs : List Command)
    → IsConsistent b
    → StaysInRange b cs
    → IsConsistent (run b cs)
unfolding run
run-IsConsistent b [] v r = v
run-IsConsistent b (c ∷ cs) v r =
    run-IsConsistent (step b c) cs (step-IsConsistent b c v r.0 (InRange-now (step b c) cs r.1)) r.1
