-- ===== src/Core/Book/Sides.antt =====
-- The two price maps of a book together: what `add_to_side`, `remove_from_side` and the lambda of
-- `execute_order` do to the numbers that the maps show.
use real_time_market_data_fe.Base.{
  ℕ, ◌+◌, ◌<◌, ◌≡◌, Bool, true, false, not, ◌==◌, ◌&&◌, if◌then◌else◌, arith, Option-cases,
  Bool-cases, inl, inr,
}
use real_time_market_data_fe.Base.Table
use real_time_market_data_fe.Base.Table.{Table}
use real_time_market_data_fe.Base.Ordered.{
  less, greater, IsOrdered, IsOrdered-insert, IsOrdered-erase, IsOrdered-modify, less-IsOrder,
  greater-IsOrder,
}
use real_time_market_data_fe.Base.Words.{u32_mod, sub32}
use real_time_market_data_fe.Core.Order.{Order, OrderStore, PriceLevel, buy, remove_quantity}
use real_time_market_data_fe.Core.Book.{
  OrderBook, add_to_side, remove_from_side, update_level, deposit, withdraw, reduce_level,
}
use real_time_market_data_fe.Core.Book.Levels.{
  Shows, deposit-Shows, withdraw-Shows, reduce_level-Shows,
}

-- `true` is the side of the bids. A side byte that is not `Buy` counts as a sale.
abbrev pub On : Bool → ℕ → Bool
On true side = side == buy
On false side = not (side == buy)

abbrev pub levels : Bool → OrderBook → Table PriceLevel
levels true b = b.bids
levels false b = b.asks

abbrev pub Numbers : Type 0
Numbers = Bool → ℕ → ℕ

abbrev pub BothShow : Numbers → Numbers → OrderBook → Type 0
BothShow q c b = (s : Bool) → Shows (q s) (c s) (levels s b)

-- Bids fall and asks rise from the front.
abbrev pub BothOrdered : OrderBook → Type 0
BothOrdered b = IsOrdered greater b.bids × IsOrdered less b.asks

both {ℓ} : (P : Bool → Type ℓ) → P true → P false → (t : Bool) → P t
both P a b true = a
both P a b false = b

Shows-eq :
    (q c q' c' : ℕ → ℕ) (ls : Table PriceLevel)
    → Shows q c ls
    → ((j : ℕ) → q' j ≡ q j)
    → ((j : ℕ) → c' j ≡ c j)
    → Shows q' c' ls
Shows-eq q c q' c' ls s hq hc j = ground (arith, s j, hq j, hc j)

module _ (q c q' c' : Numbers) (b : OrderBook) (side p x : ℕ) (s : BothShow q c b) where
  pub add_to_side-Shows :
      ((t : Bool) (j : ℕ) → q' t j ≡ q t j + (if On t side && p == j then x else 0))
      → ((t : Bool) (j : ℕ) → c' t j ≡ c t j + (if On t side && p == j then 1 else 0))
      → ((t : Bool) (j : ℕ) → (q' t j < u32_mod) × (c' t j < u32_mod))
      → ((t : Bool) (j : ℕ) → c t j ≡ 0 → q t j ≡ 0)
      → BothShow q' c' (add_to_side b side p x)
  unfolding add_to_side
  add_to_side-Shows hq hc r e true = elim (Bool-cases (side == buy)) [
    | inl y ↦ rw y (
        deposit-Shows (q true) (c true) (q' true) (c' true) p x b.bids (s true) greater
          (λ j. ground (arith, hq true j)) (λ j. ground (arith, hc true j)) (r true p).0
          (r true p).1 (e true p))
    | inr n ↦ rw n (
        Shows-eq (q true) (c true) (q' true) (c' true) b.bids (s true)
          (λ j. ground (arith, hq true j)) (λ j. ground (arith, hc true j)))
  ]
  add_to_side-Shows hq hc r e false = elim (Bool-cases (side == buy)) [
    | inl y ↦ rw y (
        Shows-eq (q false) (c false) (q' false) (c' false) b.asks (s false)
          (λ j. ground (arith, hq false j)) (λ j. ground (arith, hc false j)))
    | inr n ↦ rw n (
        deposit-Shows (q false) (c false) (q' false) (c' false) p x b.asks (s false) less
          (λ j. ground (arith, hq false j)) (λ j. ground (arith, hc false j)) (r false p).0
          (r false p).1 (e false p))
  ]

  pub remove_from_side-Shows :
      ((t : Bool) (j : ℕ) → q' t j + (if On t side && p == j then x else 0) ≡ q t j)
      → ((t : Bool) (j : ℕ) → c' t j + (if On t side && p == j then 1 else 0) ≡ c t j)
      → BothShow q' c' (remove_from_side b side p x)
  unfolding remove_from_side
  remove_from_side-Shows hq hc true = elim (Bool-cases (side == buy)) [
    | inl y ↦ rw y (
        withdraw-Shows (q true) (c true) (q' true) (c' true) p x b.bids (s true)
          (λ j. ground (arith, hq true j)) (λ j. ground (arith, hc true j)))
    | inr n ↦ rw n (
        Shows-eq (q true) (c true) (q' true) (c' true) b.bids (s true)
          (λ j. ground (arith, hq true j)) (λ j. ground (arith, hc true j)))
  ]
  remove_from_side-Shows hq hc false = elim (Bool-cases (side == buy)) [
    | inl y ↦ rw y (
        Shows-eq (q false) (c false) (q' false) (c' false) b.asks (s false)
          (λ j. ground (arith, hq false j)) (λ j. ground (arith, hc false j)))
    | inr n ↦ rw n (
        withdraw-Shows (q false) (c false) (q' false) (c' false) p x b.asks (s false)
          (λ j. ground (arith, hq false j)) (λ j. ground (arith, hc false j)))
  ]

-- The order of the maps survives each change.
withdraw-IsOrdered :
    (before : ℕ → ℕ → Bool) (p x : ℕ) (ls : Table PriceLevel)
    → IsOrdered before ls
    → IsOrdered before (withdraw p x ls)
unfolding withdraw
withdraw-IsOrdered before p x ls h = ground (
  arith,
  IsOrdered-erase before p ls h,
  IsOrdered-modify before p (λ (l : PriceLevel). (remove_quantity l x).0) ls h,
)

reduce_level-IsOrdered :
    (before : ℕ → ℕ → Bool) (p x : ℕ) (filled : Bool) (ls : Table PriceLevel)
    → IsOrdered before ls
    → IsOrdered before (reduce_level p x filled ls).0
unfolding reduce_level
reduce_level-IsOrdered before p x filled ls h = elim (Option-cases (Table.find p ls)) [
  | inl e ↦ rw (e, reduce_level) h
  | inr (l, e) ↦
      rw (e, reduce_level)
        (ground (
          arith,
          IsOrdered-erase before p ls h,
          IsOrdered-modify before p
              (λ (k : PriceLevel). record k { total_quantity = sub32 l.total_quantity x }) ls h,
          IsOrdered-modify before p
              (λ (k : PriceLevel). record k {
                total_quantity = sub32 l.total_quantity x;
                order_count = sub32 l.order_count 1;
              })
              ls h,
        ))
]

pub add_to_side-BothOrdered :
    (b : OrderBook) (side p x : ℕ) → BothOrdered b → BothOrdered (add_to_side b side p x)
unfolding add_to_side deposit
add_to_side-BothOrdered b side p x h = elim (Bool-cases (side == buy)) [
  | inl y ↦ rw y (IsOrdered-insert greater greater-IsOrder p _ b.bids h.0, h.1)
  | inr n ↦ rw n (h.0, IsOrdered-insert less less-IsOrder p _ b.asks h.1)
]

pub remove_from_side-BothOrdered :
    (b : OrderBook) (side p x : ℕ) → BothOrdered b → BothOrdered (remove_from_side b side p x)
unfolding remove_from_side
remove_from_side-BothOrdered b side p x h = elim (Bool-cases (side == buy)) [
  | inl y ↦ rw y (withdraw-IsOrdered greater p x b.bids h.0, h.1)
  | inr n ↦ rw n (h.0, withdraw-IsOrdered less p x b.asks h.1)
]

pub update_level-BothOrdered :
    (b : OrderBook) (id : ℕ) (o : Order) (left x : ℕ)
    → BothOrdered b
    → BothOrdered (update_level b id o left x)
unfolding update_level
update_level-BothOrdered b id o left x h = ground (
  arith,
  reduce_level-IsOrdered greater o.price x (left == 0) b.bids h.0,
  reduce_level-IsOrdered less o.price x (left == 0) b.asks h.1,
)

module _ (q c q' c' : Numbers) (b : OrderBook) (id : ℕ) (o : Order) (left x : ℕ)
    (s : BothShow q c b) where
  -- The maps after the lambda, and the store: the filled order is gone from it.
  pub update_level-Shows :
      ((t : Bool) (j : ℕ) → q' t j + (if On t o.side && o.price == j then x else 0) ≡ q t j)
      → ((t : Bool) (j : ℕ)
          → c' t j + (if On t o.side && o.price == j then (if left == 0 then 1 else 0) else 0)
            ≡ c t j)
      → 0 < c (o.side == buy) o.price
      → ((t : Bool) (j : ℕ) → (q t j < u32_mod) × (c t j < u32_mod))
      → BothShow q' c' (update_level b id o left x)
        × ((update_level b id o left x).store
            ≡ (if left == 0 then Table.erase id b.store else b.store))
  unfolding update_level
  update_level-Shows hq hc pos r = elim (Bool-cases (o.side == buy)) [
    | inl y ↦
        let r1 =
          reduce_level-Shows (q true) (c true) (q' true) (c' true) o.price x b.bids (s true)
            (left == 0) (λ j. ground (arith, hq true j)) (λ j. ground (arith, hc true j))
            (ground (arith, pos)) (r true o.price).0 (r true o.price).1 in
        (
          both (λ t. Shows (q' t) (c' t) (levels t (update_level b id o left x)))
              (λ j. ground (arith, r1.0 j, r1.1))
              (λ j. ground (arith, r1.1, s false j, hq false j, hc false j)),
          ground (arith, r1.1),
        )
    | inr n ↦
        let r1 =
          reduce_level-Shows (q false) (c false) (q' false) (c' false) o.price x b.asks (s false)
            (left == 0) (λ j. ground (arith, hq false j)) (λ j. ground (arith, hc false j))
            (ground (arith, pos)) (r false o.price).0 (r false o.price).1 in
        (
          both (λ t. Shows (q' t) (c' t) (levels t (update_level b id o left x)))
              (λ j. ground (arith, r1.1, s true j, hq true j, hc true j))
              (λ j. ground (arith, r1.0 j, r1.1)),
          ground (arith, r1.1),
        )
  ]

pub store-add_to_side : (b : OrderBook) (side p x : ℕ) → (add_to_side b side p x).store ≡ b.store
unfolding add_to_side
store-add_to_side b side p x = ground arith

pub store-remove_from_side :
    (b : OrderBook) (side p x : ℕ) → (remove_from_side b side p x).store ≡ b.store
unfolding remove_from_side
store-remove_from_side b side p x = ground arith

-- The maps do not depend on the store.
pub BothShow-store :
    (q c : Numbers) (b : OrderBook) (st : OrderStore)
    → BothShow q c b
    → BothShow q c (record b { store = st })
BothShow-store q c b st h true = h true
BothShow-store q c b st h false = h false
