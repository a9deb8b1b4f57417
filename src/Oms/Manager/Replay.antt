-- ===== src/Oms/Manager/Replay.antt =====
-- The journal explains the orders: replaying an order's events through the transition table ends in
-- the state that the manager keeps for it.
use Prim.Native.String.{String}
use real_time_market_data_fe.Base.{
  ℕ, ◌<◌, ◌≡◌, refl, sym, ap, subst, ◌∙◌, ◌==◌, ◌&&◌, Bool, true, false, if◌then◌else◌, Option,
  none, some, List, [], ◌∷◌, ◌++◌, arith,
}
use real_time_market_data_fe.Base.Table
use real_time_market_data_fe.Base.Table.{Table, find-assign, find-modify, find-erase}
use real_time_market_data_fe.Oms.Types.{
  OrderState, new, sent, acked, partial_fill, filled, cancelled, rejected, OmsOrder, OrderEvent,
}
use real_time_market_data_fe.Oms.Transitions.{transition, is_valid}
use real_time_market_data_fe.Oms.Journal.{JournalEntry, OrderJournal, append}
use real_time_market_data_fe.Oms.Manager.{OrderManager, on_event, apply_transition}

abbrev pub same_state : OrderState → OrderState → Bool
same_state new new = true
same_state sent sent = true
same_state acked acked = true
same_state partial_fill partial_fill = true
same_state filled filled = true
same_state cancelled cancelled = true
same_state rejected rejected = true
same_state _ _ = false

same_state_refl : (s : OrderState) → same_state s s ≡ true
same_state_refl s = ground arith

-- One event of order `id`; nothing, if the event starts elsewhere or is not in the table.
unfoldable pub replay_event : ℕ → Option OrderState → OrderEvent → Option OrderState
replay_event id none e = none
replay_event id (some s) e =
    if e.order_id == id
    then (if same_state s e.from_state && is_valid s e.to_state then some e.to_state else none)
    else some s

-- The state that the events of order `id` lead to from `s`.
unfoldable pub replay : ℕ → Option OrderState → List JournalEntry → Option OrderState
replay id s [] = s
replay id s (e ∷ es) = replay id (replay_event id s e.event) es

-- The state of an order in the store; one that is not there counts as new.
unfoldable pub state_of : Option OmsOrder → OrderState
state_of none = new
state_of (some o) = o.state

abbrev pub IsOwned : Option OmsOrder → ℕ → ℕ → Type 0
IsOwned none id n = Unit
IsOwned (some o) id n = (o.order_id ≡ id) × (id < n)

pub record IsRecorded (m : OrderManager) : Type 0 where
  pub replays :
      (id : ℕ) → replay id (some new) m.journal.entries ≡ some (state_of (Table.find id m.orders))
  pub owned : (id : ℕ) → IsOwned (Table.find id m.orders) id m.next_id

replay-snoc :
    (id : ℕ) (s : Option OrderState) (es : List JournalEntry) (e : JournalEntry)
    → replay id s (es ++ (e ∷ [])) ≡ replay_event id (replay id s es) e.event
unfolding replay
replay-snoc id s [] e = refl
replay-snoc id s (x ∷ es) e = replay-snoc id (replay_event id s x.event) es e

replay-append :
    (j : OrderJournal) (ev : OrderEvent) (i : ℕ) (s : Option OrderState)
    → replay i s (append j ev).0.entries ≡ replay_event i (replay i s j.entries) ev
unfolding append
replay-append j ev i s =
    replay-snoc i s j.entries (record { sequence_number = j.next_sequence; event = ev })

-- What the transition of the order `o`, stored under `id`, does to a replay of any order.
replay-on_event :
    (j : OrderJournal) (o : OmsOrder) (t : OrderState) (reason : String) (now i : ℕ)
    → (s : OrderState) → replay i (some new) j.entries ≡ some s
    → (o.order_id ≡ i → s ≡ o.state)
    → replay i (some new) (on_event j (transition o t reason now).1).entries
      ≡ some (if o.order_id == i then (transition o t reason now).0.state else s)
unfolding on_event transition replay_event
replay-on_event j o t reason now i s h same =
    let ev : OrderEvent = record {
      order_id = o.order_id;
      from_state = o.state;
      to_state = t;
      timestamp = now;
      reason = reason;
    } in
    ground (arith, replay-append j ev i (some new), same_state_refl o.state, h, same)

module _ (m : OrderManager) (v : IsRecorded m) (id : ℕ) (o : OmsOrder)
    (e : Table.find id m.orders ≡ some o) where
  pub found-IsOwned : (o.order_id ≡ id) × (id < m.next_id)
  found-IsOwned = subst (λ f. IsOwned f id m.next_id) e (v.owned id)

  found_state : replay id (some new) m.journal.entries ≡ some o.state
  unfolding state_of
  found_state = v.replays id ∙ ap (λ f. some (state_of f)) e

  -- A write through the pointer that leaves the identifier and the state.
  pub write-IsRecorded :
      (f : OmsOrder → OmsOrder)
      → (f o).state ≡ o.state
      → (f o).order_id ≡ o.order_id
      → IsRecorded (record m { orders = Table.modify id f m.orders })
  unfolding state_of
  write-IsRecorded f s n = record {
    replays = λ i. ground (arith, v.replays i, find-modify id i f m.orders, e, s);
    owned = λ i. rw (find-modify id i f m.orders) (ground (arith, v.owned i, e, n));
  }

  pub apply_transition-IsRecorded :
      (t : OrderState) (reason : String) (now : ℕ)
      → IsRecorded (apply_transition m id o t reason now).0
  unfolding apply_transition state_of transition
  apply_transition-IsRecorded t reason now =
      let p = (transition o t reason now).0 in
      let s = λ (i : ℕ).
        replay-on_event m.journal o t reason now i (state_of (Table.find i m.orders)) (v.replays i)
          (λ q.
            ap (λ k. state_of (Table.find k m.orders)) (sym q ∙ found-IsOwned.0) ∙ ap state_of e) in
      record {
        replays = λ i. ground (arith, found-IsOwned.0, find-modify id i (λ _. p) m.orders, e, s i);
        owned = λ i.
            rw (find-modify id i (λ _. p) m.orders) (ground (arith, v.owned i, e, found-IsOwned));
      }
