-- ===== src/Oms/Transitions.antt =====
-- src/oms/state_machine/state_transitions.cpp with its header, and the second table that
-- include/qf/oms/state_machine/order_states.hpp holds.
use Prim.Native.String.{String}
use real_time_market_data_fe.Base.{
  ℕ, ◌≡◌, Bool, true, false, ◌||◌, if◌then◌else◌, Option, none, some, arith, ◌&&◌, not,
}
use real_time_market_data_fe.Oms.Types.{
  OrderState, new, sent, acked, partial_fill, filled, cancelled, rejected, OmsOrder, OrderEvent,
  is_terminal,
}

-- `StateTransitions::is_valid`: the entries that `build_transition_table` sets.
abbrev pub is_valid : OrderState → OrderState → Bool
is_valid new sent = true
is_valid sent acked = true
is_valid sent rejected = true
is_valid acked partial_fill = true
is_valid acked filled = true
is_valid acked cancelled = true
is_valid partial_fill partial_fill = true
is_valid partial_fill filled = true
is_valid partial_fill cancelled = true
is_valid _ _ = false

-- `is_valid_transition` of order_states.hpp
abbrev pub is_valid_transition : OrderState → OrderState → Bool
is_valid_transition new sent = true
is_valid_transition new cancelled = true
is_valid_transition new rejected = true
is_valid_transition sent acked = true
is_valid_transition sent cancelled = true
is_valid_transition sent rejected = true
is_valid_transition acked partial_fill = true
is_valid_transition acked filled = true
is_valid_transition acked cancelled = true
is_valid_transition partial_fill partial_fill = true
is_valid_transition partial_fill filled = true
is_valid_transition partial_fill cancelled = true
is_valid_transition _ _ = false

-- `StateTransitions::transition` at the clock reading `now`: the order, and the event of a legal
-- transition, which goes to the callback.
unfoldable pub transition : OmsOrder → OrderState → String → ℕ → OmsOrder × Option OrderEvent
transition order new_state reason now =
    if is_valid order.state new_state
    then (
      record order { state = new_state },
      some (record {
        order_id = order.order_id;
        from_state = order.state;
        to_state = new_state;
        timestamp = now;
        reason = reason;
      }),
    )
    else (order, none)

-- `StateTransitions::transition_or_throw`: no event is where it throws.
unfoldable pub transition_or_throw :
    OmsOrder → OrderState → String → ℕ → OmsOrder × Option OrderEvent
unfolding transition
transition_or_throw order new_state reason now = transition order new_state reason now

-- The three transitions on which the tables differ.
abbrev pub only_in_header : OrderState → OrderState → Bool
only_in_header new cancelled = true
only_in_header new rejected = true
only_in_header sent cancelled = true
only_in_header _ _ = false

-- The table that the order manager goes by is the table of order_states.hpp, and the comment above it,
-- without New to Cancelled, New to Rejected and Sent to Cancelled; and the latter table allows these
-- three and what the former allows.
pub tables_lem :
    (f t : OrderState)
    → (is_valid f t ≡ (is_valid_transition f t && not (only_in_header f t)))
      × (is_valid_transition f t ≡ (is_valid f t || only_in_header f t))
tables_lem f t = (ground arith, ground arith)

-- No transition leaves a terminal state.
pub terminal_lem : (f t : OrderState) → is_terminal f ≡ true → is_valid f t ≡ false
terminal_lem f t h = ground arith
