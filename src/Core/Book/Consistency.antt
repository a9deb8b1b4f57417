-- ===== src/Core/Book/Consistency.antt =====
-- The price maps of a book always show its live orders, and stay in order.
use real_time_market_data_fe.Base.{
  ℕ, ◌-◌, ◌≤◌, ◌≡◌, refl, sym, true, false, ◌==◌, ◌||◌, ltb, none, ap, subst, ◌∙◌, ◌∷◌, arith,
  Option-cases, Bool-cases, inl, inr, some,
}
use real_time_market_data_fe.Base.Table
use real_time_market_data_fe.Base.Table.{
  Table, HasUniqueKeys, HasUniqueKeys-erase, HasUniqueKeys-modify, IsFresh-find, total, total-cons,
  erase-modify, erase, modify, total-erase, total-modify, total-find, find-modify_self,
}
use real_time_market_data_fe.Core.Order.{Order, OrderStore}
use real_time_market_data_fe.Core.Book.{
  OrderBook, new_book, add_order, cancel_order, execute_order, replace_order, add_to_side,
  remove_from_side, update_level,
}
use real_time_market_data_fe.Core.Book.Sides.{
  BothShow, BothOrdered, levels, add_to_side-Shows, remove_from_side-Shows, update_level-Shows,
  add_to_side-BothOrdered, remove_from_side-BothOrdered, update_level-BothOrdered,
  store-add_to_side, store-remove_from_side, BothShow-store,
}
use real_time_market_data_fe.Core.Book.Sums.{
  quantity_at, count_at, quantity, count, InRange, quantity_of_count, executed, executed-quantity,
  executed-count, moved-quantity, moved-count, HasUniqueKeys-executed, count_pos,
}
use real_time_market_data_fe.Core.Book.Effects.{
  incoming, add_order_fresh, add_order_duplicate, cancel_order_live, cancel_order_missing,
  execute_order_missing, execute_order_refused, execute_order_filled, replace_order_missing,
  replace_order_live,
}

-- Every level of the maps is the sum of the live orders at its price, there is no other level, and
-- no order id is used twice.
pub record IsConsistent (b : OrderBook) : Type 0 where
  pub unique : HasUniqueKeys b.store
  pub shown : BothShow (quantity b.store) (count b.store) b
  pub ordered : BothOrdered b

pub new_book-IsConsistent : (symbol : ℕ) → IsConsistent (new_book symbol)
unfolding new_book Table.find total
new_book-IsConsistent symbol = record {
  unique = tt;
  shown = λ s p. elim s as (λ t. Table.find p (levels t (new_book symbol)) ≡ none) [
    | true ↦ refl
    | false ↦ refl
  ];
  ordered = (tt, tt);
}

IsConsistent-of :
    (b : OrderBook) (st : OrderStore)
    → b.store ≡ st
    → HasUniqueKeys st
    → BothShow (quantity st) (count st) b
    → BothOrdered b
    → IsConsistent b
IsConsistent-of b st e u s o = record {
  unique = subst HasUniqueKeys (sym e) u;
  shown = subst (λ t. BothShow (quantity t) (count t) b) (sym e) s;
  ordered = o;
}

module _ (b : OrderBook) (v : IsConsistent b) where
  -- Adding an order keeps a book consistent, if no level's sum leaves 32 bits.
  pub add_order-IsConsistent :
      (id side price qty ts : ℕ)
      → InRange (add_order b id side price qty ts).0.store
      → IsConsistent (add_order b id side price qty ts).0
  add_order-IsConsistent id side price qty ts r = elim (Option-cases (Table.find id b.store)) [
    | inl e ↦
        let st : OrderStore = (id, incoming b id side price qty ts) ∷ b.store in
        let b1 : OrderBook = record b { store = st } in
        let e1 = add_order_fresh b id side price qty ts e in
        let es = store-add_to_side b1 side price qty in
        rw e1 (
          IsConsistent-of (add_to_side b1 side price qty) st es
            (IsFresh-find id b.store e, v.unique)
            (add_to_side-Shows (quantity b.store) (count b.store) (quantity st) (count st) b1 side
              price qty (BothShow-store (quantity b.store) (count b.store) b st v.shown)
              (λ t j. total-cons (quantity_at t j) id (incoming b id side price qty ts) b.store)
              (λ t j. total-cons (count_at t j) id (incoming b id side price qty ts) b.store)
              (subst InRange (ap (λ (x : OrderBook). x.store) e1 ∙ es) r)
              (quantity_of_count b.store))
            (add_to_side-BothOrdered b1 side price qty v.ordered))
    | inr (o, e) ↦ rw (add_order_duplicate b id side price qty ts e) v
  ]

  -- Cancelling an order keeps a book consistent.
  pub cancel_order-IsConsistent : (id : ℕ) → IsConsistent (cancel_order b id).0
  cancel_order-IsConsistent id = elim (Option-cases (Table.find id b.store)) [
    | inl e ↦ rw (cancel_order_missing b id e) v
    | inr (o, e) ↦
        let st : OrderStore = erase id b.store in
        let b1 : OrderBook = record b { store = st } in
        rw (cancel_order_live b id e) (
          IsConsistent-of (remove_from_side b1 o.side o.price o.remaining_quantity) st
            (store-remove_from_side b1 o.side o.price o.remaining_quantity)
            (HasUniqueKeys-erase id b.store v.unique)
            (remove_from_side-Shows (quantity b.store) (count b.store) (quantity st) (count st) b1
              o.side o.price o.remaining_quantity
              (BothShow-store (quantity b.store) (count b.store) b st v.shown)
              (λ t j. total-erase (quantity_at t j) id b.store o v.unique e)
              (λ t j. total-erase (count_at t j) id b.store o v.unique e))
            (remove_from_side-BothOrdered b1 o.side o.price o.remaining_quantity v.ordered))
  ]

  -- What a successful `execute_order` leaves in the maps and in the store.
  pub executed-Shows :
      (id x : ℕ) (o : Order)
      → Table.find id b.store ≡ some o
      → x ≤ o.remaining_quantity
      → InRange b.store
      → let left = o.remaining_quantity - x in
        let reduced = modify id (λ (y : Order). record y { remaining_quantity = left }) b.store in
        let st = executed b.store id left in
        let b' = update_level (record b { store = reduced }) id o left x in
        BothShow (quantity st) (count st) b' × (b'.store ≡ st)
  executed-Shows id x o e le r =
      let left = o.remaining_quantity - x in
      let st1 : OrderStore = modify id (λ y. record y { remaining_quantity = left }) b.store in
      let st = executed b.store id left in
      update_level-Shows (quantity b.store) (count b.store) (quantity st) (count st)
        (record b { store = st1 }) id o left x
        (BothShow-store (quantity b.store) (count b.store) b st1 v.shown)
        (λ t j. executed-quantity b.store id x o v.unique e le t j)
        (λ t j. executed-count b.store id x o v.unique e le t j) (count_pos b.store id o e) r

  -- So does executing a part of an order or the whole of it.
  pub execute_order-IsConsistent :
      (id x : ℕ) → InRange b.store → IsConsistent (execute_order b id x).0
  execute_order-IsConsistent id x r = elim (Option-cases (Table.find id b.store)) [
    | inl e ↦ rw (execute_order_missing b id x e) v
    | inr (o, e) ↦ elim (Bool-cases (x == 0 || ltb o.remaining_quantity x)) [
      | inl bad ↦ rw (execute_order_refused b id x e bad) v
      | inr good ↦
          let left = o.remaining_quantity - x in
          let st1 : OrderStore =
            modify id (λ o'. record o' { remaining_quantity = left }) b.store in
          let b1 : OrderBook = record b { store = st1 } in
          let shows = executed-Shows id x o e (ground arith) r in
          rw (execute_order_filled b id x e good) (
            IsConsistent-of (update_level b1 id o left x) (executed b.store id left) shows.1
              (HasUniqueKeys-executed b.store id left v.unique) shows.0
              (update_level-BothOrdered b1 id o left x v.ordered))
    ]
  ]

  -- Replacing an order moves it to another level of its side.
  pub replace_order-IsConsistent :
      (id new_price new_qty : ℕ)
      → InRange (replace_order b id new_price new_qty).0.store
      → IsConsistent (replace_order b id new_price new_qty).0
  replace_order-IsConsistent id np nq r = elim (Option-cases (Table.find id b.store)) [
    | inl e ↦ rw (replace_order_missing b id np nq e) v
    | inr (o, e) ↦
        let set : Order → Order = λ o'. record o' { price = np; remaining_quantity = nq } in
        let moved : OrderStore = modify id set b.store in
        let gone : OrderStore = erase id b.store in
        let cleared : OrderBook = remove_from_side b o.side o.price o.remaining_quantity in
        let b1 : OrderBook = record cleared { store = moved } in
        let e1 = replace_order_live b id np nq e in
        let es = store-add_to_side b1 o.side np nq in
        rw e1 (
          IsConsistent-of (add_to_side b1 o.side np nq) moved es
            (HasUniqueKeys-modify id set b.store v.unique)
            (add_to_side-Shows (quantity gone) (count gone) (quantity moved) (count moved) b1 o.side
              np nq
              (BothShow-store (quantity gone) (count gone) cleared moved (
                remove_from_side-Shows (quantity b.store) (count b.store) (quantity gone)
                  (count gone) b o.side o.price o.remaining_quantity v.shown
                  (λ t j. total-erase (quantity_at t j) id b.store o v.unique e)
                  (λ t j. total-erase (count_at t j) id b.store o v.unique e)))
              (λ t j. moved-quantity b.store id np nq o v.unique e t j)
              (λ t j. moved-count b.store id np nq o v.unique e t j)
              (subst InRange (ap (λ (x : OrderBook). x.store) e1 ∙ es) r) (quantity_of_count gone))
            (add_to_side-BothOrdered b1 o.side np nq
              (remove_from_side-BothOrdered b o.side o.price o.remaining_quantity v.ordered)))
  ]
