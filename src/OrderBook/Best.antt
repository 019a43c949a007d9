-- ===== src/OrderBook/Best.antt =====
-- The best levels of a book.
use arbitrage_engine.Base.{
  ℕ, zero, suc, ◌≡◌, refl, Bool, true, false, Option, none, some, List, [], ◌∷◌, arith, length, min,
  head?,
}
use arbitrage_engine.Double.{Double, IsNumber, IsOrdered}
use arbitrage_engine.OrderedMap.{find}
use arbitrage_engine.OrderedMap.Laws.{IsStrictWeak, IsSorted}
use arbitrage_engine.Core.{PriceLevel}
use arbitrage_engine.OrderBook.{
  OrderBook, higher, lower, first_level, top_levels, best_bid, best_ask, top_bids, top_asks,
}
use arbitrage_engine.OrderBook.Levels.{lower-IsStrictWeak, higher-IsStrictWeak}
use arbitrage_engine.OrderBook.Invariant.{IsWellFormed}

module _ {W : Type 0} ⦃d : Double W⦄ where
  -- The level stands in the map, and no price of the map comes before it.
  abbrev IsFirst : (W → W → Bool) → List (W × W) → Option (PriceLevel W) → Type 0
  IsFirst before m none = (p : W) → find before p m ≡ none
  IsFirst before m (some l) =
      (find before l.price m ≡ some l.quantity)
      × ((p q : W) → find before p m ≡ some q → before p l.price ≡ false)

  first_level-IsFirst :
      (before : W → W → Bool) (laws : IsStrictWeak before IsNumber) (m : List (W × W))
      → IsFirst before m (first_level m)
  unfolding find
  first_level-IsFirst before laws [] = λ p. refl
  first_level-IsFirst before laws ((k, v) ∷ m) =
      (ground (arith, laws.asym k k), λ p q e. ground (arith, laws.asym k p))

  module _ (o : IsOrdered W) where
    -- `best_bid` is on offer in the book with its quantity, and no price on offer is higher; it is
    -- missing only if no bid is on offer at all.
    pub best_bid-IsFirst : (b : OrderBook W) → IsFirst higher b.bids (best_bid b)
    unfolding best_bid
    best_bid-IsFirst b = first_level-IsFirst higher (higher-IsStrictWeak o) b.bids

    -- `best_ask` is on offer in the book with its quantity, and no price on offer is lower; it is
    -- missing only if no ask is on offer at all.
    pub best_ask-IsFirst : (b : OrderBook W) → IsFirst lower b.asks (best_ask b)
    unfolding best_ask
    best_ask-IsFirst b = first_level-IsFirst lower (lower-IsStrictWeak o) b.asks

  -- The levels come best first.
  abbrev pub IsRanked : (W → W → Bool) → List (PriceLevel W) → Type 0
  IsRanked before [] = Unit
  IsRanked before (l ∷ []) = Unit
  IsRanked before (l ∷ k ∷ ls) = (before l.price k.price ≡ true) × IsRanked before (k ∷ ls)

  top_levels-IsRanked :
      (before : W → W → Bool) (m : List (W × W)) (limit : ℕ)
      → IsSorted before IsNumber m
      → IsRanked before (top_levels m limit)
  unfolding top_levels
  top_levels-IsRanked before [] limit s = tt
  top_levels-IsRanked before (e ∷ m) zero s = tt
  top_levels-IsRanked before (e ∷ []) (suc limit) s = tt
  top_levels-IsRanked before (e ∷ f ∷ m) (suc zero) s = tt
  top_levels-IsRanked before (e ∷ f ∷ m) (suc (suc limit)) (g, a, s) =
      (a, top_levels-IsRanked before (f ∷ m) (suc limit) s)

  pub length-top_levels :
      (m : List (W × W)) (limit : ℕ) → length (top_levels m limit) ≡ min limit (length m)
  unfolding top_levels
  length-top_levels [] limit = omega arith
  length-top_levels (e ∷ m) zero = omega arith
  length-top_levels (e ∷ m) (suc limit) = omega (arith, length-top_levels m limit)

  head-top_levels :
      (m : List (W × W)) (limit : ℕ) → head? (top_levels m (suc limit)) ≡ first_level m
  unfolding top_levels
  head-top_levels [] limit = refl
  head-top_levels (e ∷ m) limit = refl

  -- `top_bids` gives the smaller of the limit and the number of bid levels, from a well-formed book
  -- in strictly falling order of price, and for a positive limit the first of them is `best_bid`.
  pub top_bids_lem :
      (b : OrderBook W) (limit : ℕ)
      → IsWellFormed b
      → (length (top_bids b limit) ≡ min limit (length b.bids))
        × IsRanked higher (top_bids b limit)
        × (head? (top_bids b (suc limit)) ≡ best_bid b)
  unfolding top_bids best_bid
  top_bids_lem b limit w = (
    length-top_levels b.bids limit,
    top_levels-IsRanked higher b.bids limit w.bids_sorted,
    head-top_levels b.bids limit,
  )

  -- `top_asks` gives the smaller of the limit and the number of ask levels, from a well-formed book
  -- in strictly rising order of price, and for a positive limit the first of them is `best_ask`.
  pub top_asks_lem :
      (b : OrderBook W) (limit : ℕ)
      → IsWellFormed b
      → (length (top_asks b limit) ≡ min limit (length b.asks))
        × IsRanked lower (top_asks b limit)
        × (head? (top_asks b (suc limit)) ≡ best_ask b)
  unfolding top_asks best_ask
  top_asks_lem b limit w = (
    length-top_levels b.asks limit,
    top_levels-IsRanked lower b.asks limit w.asks_sorted,
    head-top_levels b.asks limit,
  )
