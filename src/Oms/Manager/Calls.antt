-- ===== src/Oms/Manager/Calls.antt =====
-- The calls of the order manager, one after the other.
use Prim.Native.String.{String}
use real_time_market_data_fe.Base.{
  ℕ, ◌+◌, ◌<◌, ◌≤◌, ◌≡◌, refl, ◌==◌, Bool, true, false, Bool-cases, inl, inr, if◌then◌else◌, none,
  some, List, [], ◌∷◌, length, arith,
}
use real_time_market_data_fe.Base.Table
use real_time_market_data_fe.Base.Table.{
  Table, find-assign, find-modify, find-modify_self, find-erase,
}
use real_time_market_data_fe.Base.Words.{add64, u64_mod}
use real_time_market_data_fe.Oms.Types.{
  OrderState, sent, acked, cancelled, rejected, OmsOrder, FillReport,
}
use real_time_market_data_fe.Oms.Transitions.{transition}
use real_time_market_data_fe.Oms.Manager.{
  Decision, OrderManager, OmResult, new_order_manager, apply_transition, make_order, submit,
  with_order, on_ack, take_fill, fill_target, on_fill, cancel, on_reject,
}
use real_time_market_data_fe.Oms.Manager.Replay.{
  replay, state_of, IsRecorded, write-IsRecorded, apply_transition-IsRecorded,
}

-- The order that the transition leaves under its key.
pub find-apply_transition :
    (m : OrderManager) (id : ℕ) (o : OmsOrder) (t : OrderState) (reason : String) (now : ℕ)
    → Table.find id m.orders ≡ some o
    → Table.find id (apply_transition m id o t reason now).0.orders
      ≡ some (transition o t reason now).0
unfolding apply_transition
find-apply_transition m id o t reason now e =
    find-modify_self id (λ _. (transition o t reason now).0) m.orders o e

IsRecorded-if :
    (b : Bool) (x y : OrderManager × OmResult)
    → IsRecorded x.0
    → IsRecorded y.0
    → IsRecorded (if b then x else y).0
IsRecorded-if true x y h k = h
IsRecorded-if false x y h k = k

module _ (m : OrderManager) (v : IsRecorded m) where
  assign-IsRecorded :
      (d : Decision) (now : ℕ)
      → m.next_id + 1 < u64_mod
      → IsRecorded (record m {
        orders = Table.assign m.next_id (make_order d m.next_id now) m.orders;
        next_id = add64 m.next_id 1;
      })
  unfolding make_order state_of
  assign-IsRecorded d now h = record {
    replays = λ i. ground (
      arith,
      v.replays i,
      v.owned i,
      find-assign m.next_id i (make_order d m.next_id now) m.orders,
    );
    owned = λ i.
        rw (find-assign m.next_id i (make_order d m.next_id now) m.orders)
          (ground (arith, v.owned i));
  }

  with_order-IsRecorded :
      (id : ℕ) (f : OmsOrder → OrderManager × OmResult)
      → ((o : OmsOrder) → Table.find id m.orders ≡ some o → IsRecorded (f o).0)
      → IsRecorded (with_order m id f).0
  unfolding with_order
  with_order-IsRecorded id f h =
      elim (Table.find id m.orders)
          as (λ t.
            Table.find id m.orders ≡ t
            → IsRecorded
                (elim t as (λ _. OrderManager × OmResult) [
                  | none ↦ (m, record { success = false; order_id = id })
                  | some o ↦ f o
                ]).0) [ none ↦ λ e. v | some o ↦ h o ]
        refl

  on_ack-IsRecorded : (id : ℕ) (now : ℕ → ℕ) → IsRecorded (on_ack m id now).0
  unfolding on_ack
  on_ack-IsRecorded id now = with_order-IsRecorded id _ (λ o e.
      let taken = apply_transition m id o acked "ack" (now 0) in
      let kept = apply_transition-IsRecorded m v id o e acked "ack" (now 0) in
      let found = find-apply_transition m id o acked "ack" (now 0) e in
      IsRecorded-if (taken.1).success _ taken
        (write-IsRecorded (taken.0) kept id _ found (λ p. record p { acked_at = now 1 }) refl refl)
        kept)

  cancel-IsRecorded : (id : ℕ) (now : ℕ → ℕ) → IsRecorded (cancel m id now).0
  unfolding cancel
  cancel-IsRecorded id now =
      with_order-IsRecorded id _
        (λ o e. apply_transition-IsRecorded m v id o e cancelled "cancel" (now 0))

  on_reject-IsRecorded :
      (id : ℕ) (reason : String) (now : ℕ → ℕ) → IsRecorded (on_reject m id reason now).0
  unfolding on_reject
  on_reject-IsRecorded id reason now =
      with_order-IsRecorded id _
        (λ o e. apply_transition-IsRecorded m v id o e rejected reason (now 0))

  on_fill-IsRecorded : (r : FillReport) (now : ℕ → ℕ) → IsRecorded (on_fill m r now).0
  unfolding on_fill take_fill
  on_fill-IsRecorded r now = with_order-IsRecorded r.order_id _ (λ o e.
      let p = take_fill o r (now 0) in
      apply_transition-IsRecorded (record m { orders = Table.modify r.order_id (λ _. p) m.orders })
        (write-IsRecorded m v r.order_id o e (λ _. p) refl refl) r.order_id p
        (find-modify_self r.order_id (λ _. p) m.orders o e) (fill_target p) "fill" (now 1))

  submit-IsRecorded :
      (d : Decision) (now : ℕ → ℕ) → m.next_id + 1 < u64_mod → IsRecorded (submit m d now).0
  unfolding submit apply_transition make_order
  submit-IsRecorded d now h = elim (Bool-cases (d.quantity == 0)) [
    | inl y ↦ rw y v
    | inr n ↦ rw n (
        let order = make_order d m.next_id (now 0) in
        let stored : OrderManager = record m {
          orders = Table.assign m.next_id order m.orders;
          next_id = add64 m.next_id 1;
        } in
        let there : Table.find m.next_id stored.orders ≡ some order =
          ground (arith, find-assign m.next_id m.next_id order m.orders) in
        let kept =
          apply_transition-IsRecorded stored (assign-IsRecorded d (now 0) h) m.next_id order there
            sent "submit" (now 1) in
        write-IsRecorded (apply_transition stored m.next_id order sent "submit" (now 1)).0 kept
          m.next_id _ (find-apply_transition stored m.next_id order sent "submit" (now 1) there)
          (λ p. record p { sent_at = now 2 }) refl refl)
  ]

pub data Call : Type 0 where
  submit_call : Decision → Call
  ack_call : ℕ → Call
  fill_call : FillReport → Call
  cancel_call : ℕ → Call
  reject_call : ℕ → String → Call

unfoldable pub call : OrderManager → Call → (ℕ → ℕ) → OrderManager × OmResult
call m (submit_call d) now = submit m d now
call m (ack_call id) now = on_ack m id now
call m (fill_call r) now = on_fill m r now
call m (cancel_call id) now = cancel m id now
call m (reject_call id reason) now = on_reject m id reason now

unfoldable pub run : OrderManager → List (Call × (ℕ → ℕ)) → OrderManager
run m [] = m
run m (c ∷ cs) = run (call m c.0 c.1).0 cs

next_id-call :
    (m : OrderManager) (c : Call) (now : ℕ → ℕ)
    → m.next_id + 1 < u64_mod
    → (call m c now).0.next_id ≤ m.next_id + 1
unfolding call submit apply_transition on_ack on_fill cancel on_reject with_order
next_id-call m (submit_call d) now h = ground arith
next_id-call m (ack_call id) now h = ground arith
next_id-call m (fill_call r) now h = ground arith
next_id-call m (cancel_call id) now h = ground arith
next_id-call m (reject_call id reason) now h = ground arith

call-IsRecorded :
    (m : OrderManager) (c : Call) (now : ℕ → ℕ)
    → IsRecorded m
    → m.next_id + 1 < u64_mod
    → IsRecorded (call m c now).0
unfolding call
call-IsRecorded m (submit_call d) now v h = submit-IsRecorded m v d now h
call-IsRecorded m (ack_call id) now v h = on_ack-IsRecorded m v id now
call-IsRecorded m (fill_call r) now v h = on_fill-IsRecorded m v r now
call-IsRecorded m (cancel_call id) now v h = cancel-IsRecorded m v id now
call-IsRecorded m (reject_call id reason) now v h = on_reject-IsRecorded m v id reason now

pub new_order_manager-IsRecorded : IsRecorded new_order_manager
unfolding replay state_of Table.find
new_order_manager-IsRecorded = record { replays = λ id. refl; owned = λ id. tt }

-- An order manager whose journal explains its orders, such as a new one, is still one after any
-- calls, while its identifiers stay below 2^64: the events of each order, replayed from New through
-- the table of transitions, chain from state to state and end in the state that the manager keeps
-- for it, or in New if it keeps no such order; and each order stands under its own identifier, which
-- is below the next one.
pub run-IsRecorded :
    (m : OrderManager) (cs : List (Call × (ℕ → ℕ)))
    → IsRecorded m
    → m.next_id + length cs < u64_mod
    → IsRecorded (run m cs)
unfolding run
run-IsRecorded m [] v h = v
run-IsRecorded m (c ∷ cs) v h =
    run-IsRecorded (call m c.0 c.1).0 cs (call-IsRecorded m c.0 c.1 v (omega arith))
      (omega (arith, next_id-call m c.0 c.1))
