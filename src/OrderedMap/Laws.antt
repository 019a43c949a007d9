-- ===== src/OrderedMap/Laws.antt =====
-- The order of the entries of a map, and what `assign` and `erase` do to each key.
use arbitrage_engine.Base.{
  ◌≡◌, refl, ◌⊎◌, Bool, true, false, not, ◌&&◌, none, some, List, [], ◌∷◌, arith, if◌then◌else◌,
}
use arbitrage_engine.OrderedMap.{assign, erase, find}

-- A strict weak order, away from the keys that are no numbers.
pub record IsStrictWeak {ℓ} {K : Type ℓ} (before : K → K → Bool) (Good : K → Type 0) : Type ℓ where
  pub asym : (a b : K) → before a b ≡ true → before b a ≡ false
  pub trans : (a b c : K) → before a b ≡ true → before b c ≡ true → before a c ≡ true
  pub split : (a b c : K) → Good c → before a b ≡ true → (before a c ≡ true) ⊎ (before c b ≡ true)

-- The keys that a map takes for one another.
abbrev pub equivalent {ℓ} : {K : Type ℓ} (before : K → K → Bool) → K → K → Bool
equivalent before a b = not (before a b) && not (before b a)

module _ {ℓ κ} {K : Type ℓ} {V : Type κ} (before : K → K → Bool) (Good : K → Type 0) where
  -- The first key of the map comes after `k`.
  abbrev pub StartsAfter : K → List (K × V) → Type 0
  StartsAfter k [] = Unit
  StartsAfter k ((j, w) ∷ m) = before k j ≡ true

  abbrev pub IsSorted : List (K × V) → Type 0
  IsSorted [] = Unit
  IsSorted ((k, v) ∷ m) = Good k × StartsAfter k m × IsSorted m

  module _ (laws : IsStrictWeak before Good) where
    StartsAfter-assign :
        (i k : K) (v : V) (m : List (K × V))
        → before i k ≡ true
        → StartsAfter i m
        → StartsAfter i (assign before k v m)
    unfolding assign
    StartsAfter-assign i k v [] h s = h
    StartsAfter-assign i k v ((j, w) ∷ m) h s = ground arith

    pub assign-IsSorted :
        (k : K) (v : V) (m : List (K × V)) → Good k → IsSorted m → IsSorted (assign before k v m)
    unfolding assign
    assign-IsSorted k v [] g s = (g, tt, tt)
    assign-IsSorted k v ((j, w) ∷ m) g (gj, a, s) =
        ground (arith, assign-IsSorted k v m g s, StartsAfter-assign j k v m)

    StartsAfter-erase :
        (i k : K) (m : List (K × V))
        → StartsAfter i m
        → IsSorted m
        → StartsAfter i (erase before k m)
    unfolding erase
    StartsAfter-erase i k [] a s = tt
    StartsAfter-erase i k ((j, w) ∷ []) a s = ground arith
    StartsAfter-erase i k ((j, w) ∷ (l, x) ∷ m) a s = ground (arith, laws.trans i j l)

    pub erase-IsSorted : (k : K) (m : List (K × V)) → IsSorted m → IsSorted (erase before k m)
    unfolding erase
    erase-IsSorted k [] s = tt
    erase-IsSorted k ((j, w) ∷ m) (g, a, s) =
        ground (arith, erase-IsSorted k m s, StartsAfter-erase j k m a s)

    -- What a lookup finds after an assignment.
    pub find-assign :
        (j k : K) (v : V) (m : List (K × V))
        → Good j
        → Good k
        → IsSorted m
        → find before j (assign before k v m)
          ≡ (if equivalent before k j then some v else find before j m)
    unfolding find assign
    find-assign j k v [] gj gk s = ground arith
    find-assign j k v ((i, w) ∷ m) gj gk (gi, a, s) = ground (
      arith,
      find-assign j k v m gj gk s,
      laws.asym i k,
      laws.asym k i,
      laws.asym j i,
      laws.asym i j,
      laws.asym j k,
      laws.asym k j,
      laws.trans j i k,
      laws.trans j k i,
      laws.trans i k j,
      laws.trans k i j,
      laws.split i k j gj,
      laws.split k i j gj,
      laws.split j k i gi,
      laws.split k j i gi,
      laws.split i j k gk,
      laws.split j i k gk,
    )

    find-StartsAfter :
        (j k : K) (m : List (K × V))
        → Good j
        → before k j ≡ false
        → StartsAfter k m
        → find before j m ≡ none
    unfolding find
    find-StartsAfter j k [] g e a = refl
    find-StartsAfter j k ((i, w) ∷ m) g e a = ground (arith, laws.split k i j g, laws.asym j i)

    -- What a lookup finds after an erasure.
    pub find-erase :
        (j k : K) (m : List (K × V))
        → Good j
        → Good k
        → IsSorted m
        → find before j (erase before k m)
          ≡ (if equivalent before k j then none else find before j m)
    unfolding find erase
    find-erase j k [] gj gk s = ground arith
    find-erase j k ((i, w) ∷ m) gj gk (gi, a, s) = ground (
      arith,
      find-erase j k m gj gk s,
      find-StartsAfter j i m gj,
      laws.asym i k,
      laws.asym k i,
      laws.asym j i,
      laws.asym i j,
      laws.asym j k,
      laws.asym k j,
      laws.split i k j gj,
      laws.split k i j gj,
      laws.split j k i gi,
      laws.split k j i gi,
      laws.split i j k gk,
      laws.split j i k gk,
    )

-- A property of the values is kept.
module _ {ℓ κ} {K : Type ℓ} {V : Type κ} (before : K → K → Bool) (P : V → Type 0) where
  abbrev pub AllValues : List (K × V) → Type 0
  AllValues [] = Unit
  AllValues ((k, v) ∷ m) = P v × AllValues m

  pub assign-AllValues :
      (k : K) (v : V) (m : List (K × V)) → P v → AllValues m → AllValues (assign before k v m)
  unfolding assign
  assign-AllValues k v [] p h = (p, tt)
  assign-AllValues k v ((j, w) ∷ m) p h = ground (arith, assign-AllValues k v m p h.1)

  pub erase-AllValues : (k : K) (m : List (K × V)) → AllValues m → AllValues (erase before k m)
  unfolding erase
  erase-AllValues k [] h = tt
  erase-AllValues k ((j, w) ∷ m) h = ground (arith, erase-AllValues k m h.1)
