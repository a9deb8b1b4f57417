-- ===== src/Core/Book/Sums.antt =====
-- What the live orders of a store add up to, by side and price.
use real_time_market_data_fe.Base.{
  ℕ, ◌+◌, ◌-◌, ◌<◌, ◌≤◌, ◌≡◌, refl, Bool, ◌==◌, ◌&&◌, if◌then◌else◌, some, [], ◌∷◌, arith,
}
use real_time_market_data_fe.Base.Table
use real_time_market_data_fe.Base.Table.{
  Table, HasUniqueKeys, HasUniqueKeys-erase, HasUniqueKeys-modify, IsFresh-find, total, total-cons,
  erase-modify, erase, modify, total-erase, total-modify, total-find, find-modify_self,
}
use real_time_market_data_fe.Base.Words.{u32_mod}
use real_time_market_data_fe.Core.Order.{Order, OrderStore, buy}
use real_time_market_data_fe.Core.Book.Sides.{On}

-- What one order adds to the level of side `s` and price `p`.
abbrev pub quantity_at : Bool → ℕ → Order → ℕ
quantity_at s p o = if On s o.side && o.price == p then o.remaining_quantity else 0

abbrev pub count_at : Bool → ℕ → Order → ℕ
count_at s p o = if On s o.side && o.price == p then 1 else 0

-- What all live orders add to it.
abbrev pub quantity : OrderStore → Bool → ℕ → ℕ
quantity st s p = total (quantity_at s p) st

abbrev pub count : OrderStore → Bool → ℕ → ℕ
count st s p = total (count_at s p) st

-- No level's sum leaves `uint32_t`.
abbrev pub InRange : OrderStore → Type 0
InRange st = (s : Bool) (p : ℕ) → (quantity st s p < u32_mod) × (count st s p < u32_mod)

pub quantity_of_count :
    (st : OrderStore) (s : Bool) (p : ℕ) → count st s p ≡ 0 → quantity st s p ≡ 0
unfolding total
quantity_of_count [] s p e = refl
quantity_of_count ((k, o) ∷ st) s p e = ground (arith, quantity_of_count st s p)

-- `execute_order`'s store: the filled order is gone, any other has `x` less.
abbrev pub executed : OrderStore → ℕ → ℕ → OrderStore
executed st id left =
    let reduced = modify id (λ o. record o { remaining_quantity = left }) st in
    if left == 0 then erase id reduced else reduced

module _ (st : OrderStore) (id x : ℕ) (o : Order) (u : HasUniqueKeys st)
    (e : Table.find id st ≡ some o) (le : x ≤ o.remaining_quantity) (t : Bool) (j : ℕ) where
  pub executed-quantity :
      quantity (executed st id (o.remaining_quantity - x)) t j
        + (if On t o.side && o.price == j then x else 0)
      ≡ quantity st t j
  executed-quantity =
      let set : Order → Order = λ o'. record o' { remaining_quantity = o.remaining_quantity - x } in
      ground (
        arith,
        total-erase (quantity_at t j) id st o u e,
        total-modify (quantity_at t j) id set st o u e,
        erase-modify id set st,
      )

  pub executed-count :
      count (executed st id (o.remaining_quantity - x)) t j
        + (if On t o.side && o.price == j
            then (if o.remaining_quantity - x == 0 then 1 else 0)
            else 0)
      ≡ count st t j
  executed-count =
      let set : Order → Order = λ o'. record o' { remaining_quantity = o.remaining_quantity - x } in
      ground (
        arith,
        total-erase (count_at t j) id st o u e,
        total-modify (count_at t j) id set st o u e,
        erase-modify id set st,
      )

module _ (st : OrderStore) (id np nq : ℕ) (o : Order) (u : HasUniqueKeys st)
    (e : Table.find id st ≡ some o) (t : Bool) (j : ℕ) where
  pub moved-quantity :
      quantity
        (modify id (λ (o' : Order). record o' { price = np; remaining_quantity = nq }) st)
        t
        j
      ≡ quantity (erase id st) t j + (if On t o.side && np == j then nq else 0)
  moved-quantity =
      let set : Order → Order = λ o'. record o' { price = np; remaining_quantity = nq } in
      ground (
        arith,
        total-erase (quantity_at t j) id st o u e,
        total-modify (quantity_at t j) id set st o u e,
      )

  pub moved-count :
      count (modify id (λ (o' : Order). record o' { price = np; remaining_quantity = nq }) st) t j
      ≡ count (erase id st) t j + (if On t o.side && np == j then 1 else 0)
  moved-count =
      let set : Order → Order = λ o'. record o' { price = np; remaining_quantity = nq } in
      ground
        (arith, total-erase (count_at t j) id st o u e, total-modify (count_at t j) id set st o u e)

pub HasUniqueKeys-executed :
    (st : OrderStore) (id left : ℕ) → HasUniqueKeys st → HasUniqueKeys (executed st id left)
HasUniqueKeys-executed st id left u =
    let set : Order → Order = λ o'. record o' { remaining_quantity = left } in
    ground (arith, HasUniqueKeys-erase id (modify id set st), HasUniqueKeys-modify id set st u)

pub count_pos :
    (st : OrderStore) (id : ℕ) (o : Order)
    → Table.find id st ≡ some o
    → 0 < count st (o.side == buy) o.price
count_pos st id o e = ground (arith, total-find (count_at (o.side == buy) o.price) id st o e)
