-- ===== src/Oms/Manager/Fills.antt =====
-- What a fill does to its order.
use Prim.Native.String.{String}
use real_time_market_data_fe.Base.{
  ℕ, ◌≡◌, refl, ap, ◌∙◌, false, if◌then◌else◌, none, some, arith, ◌+◌, ◌%◌, ◌^◌, leb, ◌==◌,
}
use real_time_market_data_fe.Base.Table
use real_time_market_data_fe.Base.Table.{
  Table, find-assign, find-modify, find-modify_self, find-erase,
}
use real_time_market_data_fe.Oms.Types.{OrderState, OmsOrder, FillReport, filled, partial_fill}
use real_time_market_data_fe.Oms.Transitions.{transition, is_valid}
use real_time_market_data_fe.Oms.Manager.{
  OrderManager, OmResult, apply_transition, with_order, take_fill, fill_target, on_fill,
}
use real_time_market_data_fe.Oms.Manager.Calls.{find-apply_transition}

apply_transition-success :
    (m : OrderManager) (id : ℕ) (o : OmsOrder) (t : OrderState) (reason : String) (now : ℕ)
    → (apply_transition m id o t reason now).1.success ≡ is_valid o.state t
unfolding apply_transition
apply_transition-success m id o t reason now = refl

transition-state :
    (o : OmsOrder) (t : OrderState) (reason : String) (now : ℕ)
    → (transition o t reason now).0 ≡ record o { state = if is_valid o.state t then t else o.state }
unfolding transition
transition-state o t reason now = ground arith

with_order-found :
    (m : OrderManager) (id : ℕ) (f : OmsOrder → OrderManager × OmResult) (o : OmsOrder)
    → Table.find id m.orders ≡ some o
    → with_order m id f ≡ f o
unfolding with_order
with_order-found m id f o e =
    ap
      (λ t. elim t as (λ _. OrderManager × OmResult) [
        | none ↦ (m, record { success = false; order_id = id })
        | some x ↦ f x
      ])
      e

written_fill : OrderManager → FillReport → OmsOrder → OrderManager
written_fill m r p = record m { orders = Table.modify r.order_id (λ _. p) m.orders }

on_fill-found :
    (m : OrderManager) (r : FillReport) (now : ℕ → ℕ) (o : OmsOrder)
    → Table.find r.order_id m.orders ≡ some o
    → let p = take_fill o r (now 0) in
      on_fill m r now
      ≡ apply_transition (written_fill m r p) r.order_id p (fill_target p) "fill" (now 1)
unfolding on_fill written_fill
on_fill-found m r now o e = with_order-found m r.order_id _ o e

-- `on_fill` on an order that is in the store adds the fill, on 32 bits, and its time whatever the
-- order's state, moves the state only where the table has the transition, and reports success just then.
pub on_fill_lem :
    (m : OrderManager) (r : FillReport) (now : ℕ → ℕ) (o : OmsOrder)
    → Table.find r.order_id m.orders ≡ some o
    → let total = (o.filled_quantity + r.fill_quantity) % 2 ^ 32 in
      let target = if leb o.quantity total then filled else partial_fill in
      let legal = is_valid o.state target in
      (Table.find r.order_id (on_fill m r now).0.orders
        ≡ some (record o {
          filled_quantity = total;
          last_fill = if r.timestamp == 0 then now 0 else r.timestamp;
          state = if legal then target else o.state;
        }))
      × ((on_fill m r now).1.success ≡ legal)
unfolding take_fill fill_target written_fill
on_fill_lem m r now o e =
    let p = take_fill o r (now 0) in
    let there = find-modify_self r.order_id (λ _. p) m.orders o e in
    let left =
      find-apply_transition (written_fill m r p) r.order_id p (fill_target p) "fill" (now 1)
        there in
    rw (on_fill-found m r now o e) (
      left ∙ ap some (transition-state p (fill_target p) "fill" (now 1)),
      apply_transition-success (written_fill m r p) r.order_id p (fill_target p) "fill" (now 1),
    )
