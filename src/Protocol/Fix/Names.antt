-- ===== src/Protocol/Fix/Names.antt =====
-- std::unordered_map with a text as its key, as the list of its entries.
use real_time_market_data_fe.Base.{ℕ, if◌then◌else◌, Option, none, some, List, [], ◌∷◌}
use real_time_market_data_fe.Protocol.Fix.Text.{same}

abbrev pub Names {ℓ} : Type ℓ → Type ℓ
Names V = List (List ℕ × V)

module _ {ℓ} {V : Type ℓ} where
  unfoldable pub find : List ℕ → Names V → Option V
  unfolding same
  find k [] = none
  find k ((j, v) ∷ t) = if same j k then some v else find k t

  unfoldable pub erase : List ℕ → Names V → Names V
  unfolding same
  erase k [] = []
  erase k ((j, v) ∷ t) = if same j k then erase k t else (j, v) ∷ erase k t

  -- `m[k] = v`.
  unfoldable pub assign : List ℕ → V → Names V → Names V
  unfolding same
  assign k v [] = (k, v) ∷ []
  assign k v ((j, w) ∷ t) = if same j k then (j, v) ∷ t else (j, w) ∷ assign k v t

  -- `m.emplace(k, v)`, which leaves an entry that is there.
  unfoldable pub emplace : List ℕ → V → Names V → Names V
  unfolding same
  emplace k v [] = (k, v) ∷ []
  emplace k v ((j, w) ∷ t) = if same j k then (j, w) ∷ t else (j, w) ∷ emplace k v t
