-- ===== src/OrderedMap.antt =====
-- `std::map` over a comparator, as the list of its entries in iteration order: what the order book
-- uses of it.
pub mod Laws
use arbitrage_engine.Base.{Bool, Option, none, some, List, [], ◌∷◌, if◌then◌else◌}

module _ {ℓ κ} {K : Type ℓ} {V : Type κ} (before : K → K → Bool) where
  -- `m[k] = v`: an entry with an equivalent key keeps its key.
  unfoldable pub assign : K → V → List (K × V) → List (K × V)
  assign k v [] = (k, v) ∷ []
  assign k v ((j, w) ∷ m) =
      if before j k
      then (j, w) ∷ assign k v m
      else if before k j
      then (k, v) ∷ (j, w) ∷ m
      else (j, v) ∷ m

  -- `m.erase(k)`
  unfoldable pub erase : K → List (K × V) → List (K × V)
  erase k [] = []
  erase k ((j, w) ∷ m) =
      if before j k then (j, w) ∷ erase k m else if before k j then (j, w) ∷ m else m

  -- `m.find(k)`
  unfoldable pub find : K → List (K × V) → Option V
  find k [] = none
  find k ((j, w) ∷ m) = if before j k then find k m else if before k j then none else some w
