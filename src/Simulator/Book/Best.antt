-- ===== src/Simulator/Book/Best.antt =====
-- The order that the search for the best one finds.
use real_time_market_data_fe.Base.{
  ℕ, ◌≡◌, refl, Bool, true, false, ◌==◌, ◌&&◌, if◌then◌else◌, Bool-cases, Option, none, some, [],
  ◌∷◌, ◌⊎◌, inl, inr, arith, subst, ap, ◌∙◌,
}
use real_time_market_data_fe.Base.Table
use real_time_market_data_fe.Base.Table.{HasUniqueKeys, find_of_IsFresh}
use real_time_market_data_fe.Core.Order.{Order, OrderStore}
use real_time_market_data_fe.Simulator.Book.{improves, best_loop}

module _ (better : ℕ → ℕ → Bool) (side : ℕ) where
  -- It is in the book, on its side and with the price that is told.
  pub best_loop-found :
      (t : OrderStore) (acc : Option (ℕ × ℕ)) (id p : ℕ)
      → HasUniqueKeys t
      → best_loop better side acc t ≡ some (id, p)
      → (acc ≡ some (id, p))
        ⊎ ((o : Order) × (Table.find id t ≡ some o) × (o.side ≡ side) × (o.price ≡ p))
  unfolding best_loop Table.find
  best_loop-found [] acc id p u e = inl e
  best_loop-found ((k, w) ∷ t) acc id p u e =
      elim (Bool-cases (w.side == side && improves better w.price acc)) [
        | inl y ↦ elim (best_loop-found t (some (k, w.price)) id p u.1 (ground (arith, y, e))) [
          | inl same ↦ inr (w, ground (arith, same), ground (arith, y), ground (arith, same))
          | inr (o, found, s, q) ↦ inr (o, ground (arith, found, find_of_IsFresh k t u.0), s, q)
        ]
        | inr n ↦ elim (best_loop-found t acc id p u.1 (ground (arith, n, e))) [
          | inl same ↦ inl same
          | inr (o, found, s, q) ↦ inr (o, ground (arith, found, find_of_IsFresh k t u.0), s, q)
        ]
      ]

  module _ (irr : (a : ℕ) → better a a ≡ false)
      (asym : (a b : ℕ) → better a b ≡ true → better b a ≡ false)
      (trans : (a b c : ℕ) → better a b ≡ false → better b c ≡ false → better a c ≡ false) where
    kept :
        (t : OrderStore) (i q : ℕ)
        → (r : ℕ × ℕ) × (best_loop better side (some (i, q)) t ≡ some r) × (better q r.1 ≡ false)
    unfolding best_loop
    kept [] i q = ((i, q), refl, irr q)
    kept ((k, w) ∷ t) i q = elim (Bool-cases (w.side == side && better w.price q)) [
      | inl y ↦
          let (r, e, h) = kept t k w.price in
          (r, ground (arith, y, e), trans q w.price r.1 (asym w.price q (ground arith)) h)
      | inr n ↦ let (r, e, h) = kept t i q in (r, ground (arith, n, e), h)
    ]

    first-beats :
        (k : ℕ) (w : Order) (t : OrderStore) (acc : Option (ℕ × ℕ))
        → w.side ≡ side
        → (r : ℕ × ℕ) × (best_loop better side acc ((k, w) ∷ t) ≡ some r)
          × (better w.price r.1 ≡ false)
    unfolding best_loop
    first-beats k w t none s = let (r, e, h) = kept t k w.price in (r, ground (arith, e), h)
    first-beats k w t (some (i, q)) s = elim (Bool-cases (better w.price q)) [
      | inl y ↦ let (r, e, h) = kept t k w.price in (r, ground (arith, y, e), h)
      | inr n ↦ let (r, e, h) = kept t i q in (r, ground (arith, n, e), trans w.price q r.1 n h)
    ]

    -- No order of the side beats it.
    pub best_loop-beats :
        (t : OrderStore) (acc : Option (ℕ × ℕ)) (j : ℕ) (o : Order)
        → Table.find j t ≡ some o
        → o.side ≡ side
        → (r : ℕ × ℕ) × (best_loop better side acc t ≡ some r) × (better o.price r.1 ≡ false)
    unfolding best_loop Table.find
    best_loop-beats [] acc j o e s = cc
    best_loop-beats ((k, w) ∷ t) acc j o e s = elim (Bool-cases (k == j)) [
      | inr n ↦
          best_loop-beats t
            (if w.side == side && improves better w.price acc then some (k, w.price) else acc) j o
            (ground (arith, n)) s
      | inl y ↦
          let same : w ≡ o = ground arith in
          subst
            (λ (x : Order).
              (r : ℕ × ℕ) × (best_loop better side acc ((k, w) ∷ t) ≡ some r)
              × (better x.price r.1 ≡ false))
            same (first-beats k w t acc (ap (λ (x : Order). x.side) same ∙ s))
    ]
