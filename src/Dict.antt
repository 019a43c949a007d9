-- ===== src/Dict.antt =====
-- `std::unordered_map<std::string, V>` as the list of its entries: what the sources use of it. The
-- order of the entries stands for the unspecified order of iteration.
pub mod Laws
use arbitrage_engine.Base.{
  Bool, true, false, Option, none, some, List, [], ◌∷◌, ◌++◌, if◌then◌else◌, Text, text_eq,
  has_value,
}

module _ {ℓ} {V : Type ℓ} where
  -- `m.find(k)`
  unfoldable pub lookup : Text → List (Text × V) → Option V
  lookup k [] = none
  lookup k ((j, v) ∷ m) = if text_eq j k then some v else lookup k m

  -- `m[k] = v`
  unfoldable pub insert : Text → V → List (Text × V) → List (Text × V)
  insert k v [] = (k, v) ∷ []
  insert k v ((j, w) ∷ m) = if text_eq j k then (j, v) ∷ m else (j, w) ∷ insert k v m

  -- `m.emplace(k, v)`: an entry that is there is kept.
  unfoldable pub emplace : Text → V → List (Text × V) → List (Text × V)
  emplace k v m = if has_value (lookup k m) then m else m ++ ((k, v) ∷ [])
