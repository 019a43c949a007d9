-- ===== src/OrderBook/Levels.antt =====
-- The `apply_levels` loops over either comparator: the order of the map, the sign of its quantities,
-- and the quantity that each price ends with.
use arbitrage_engine.Base.{
  ◌≡◌, refl, Bool, false, Option, none, some, List, [], ◌∷◌, arith, if◌then◌else◌, All,
}
use arbitrage_engine.Double.{Double, IsNumber, IsOrdered}
use arbitrage_engine.OrderedMap.{find}
use arbitrage_engine.OrderedMap.Laws.{
  IsStrictWeak, equivalent, IsSorted, AllValues, assign-IsSorted, erase-IsSorted, find-assign,
  find-erase, assign-AllValues, erase-AllValues,
}
use arbitrage_engine.Core.{PriceLevel}
use arbitrage_engine.OrderBook.{higher, lower, apply_level, apply_levels}

module _ {W : Type 0} ⦃d : Double W⦄ where
  -- No price of the message is NaN.
  abbrev pub HasNumbers : List (PriceLevel W) → Type 0
  HasNumbers = All λ l. IsNumber l.price

  abbrev pub IsPositive : W → Type 0
  IsPositive q = d.le q d.nought ≡ false

  -- What a message says of one price: its last level for that price wins, and a quantity that is not
  -- positive removes the price.
  abbrev pub replay : (W → W → Bool) → List (PriceLevel W) → W → Option W → Option W
  replay before [] p old = old
  replay before (l ∷ ls) p old = replay before ls p (
      if equivalent before l.price p
      then (if d.le l.quantity d.nought then none else some l.quantity)
      else old)

  pub lower-IsStrictWeak : IsOrdered W → IsStrictWeak {K = W} lower IsNumber
  lower-IsStrictWeak o = record { asym = o.lt_asym; trans = o.lt_trans; split = o.lt_split }

  pub higher-IsStrictWeak : IsOrdered W → IsStrictWeak {K = W} higher IsNumber
  higher-IsStrictWeak o = record {
    asym = λ a b. o.lt_asym b a;
    trans = λ a b c p q. o.lt_trans c b a q p;
    split = λ a b c g h. ground (arith, o.lt_split b a c g h);
  }

  module _ (before : W → W → Bool) where
    pub apply_levels-AllValues :
        (m : List (W × W)) (ls : List (PriceLevel W))
        → AllValues before IsPositive m
        → AllValues before IsPositive (apply_levels before m ls)
    unfolding apply_levels
    apply_levels-AllValues m [] h = h
    apply_levels-AllValues m (l ∷ ls) h = apply_levels-AllValues (apply_level before m l) ls (
        ground (
          arith,
          erase-AllValues before IsPositive l.price m h,
          assign-AllValues before IsPositive l.price l.quantity m,
        ))

    module _ (laws : IsStrictWeak before IsNumber) where
      apply_level-IsSorted :
          (m : List (W × W)) (l : PriceLevel W)
          → IsNumber l.price
          → IsSorted before IsNumber m
          → IsSorted before IsNumber (apply_level before m l)
      apply_level-IsSorted m l g s = ground (
        arith,
        erase-IsSorted before IsNumber laws l.price m s,
        assign-IsSorted before IsNumber laws l.price l.quantity m g s,
      )

      pub apply_levels-IsSorted :
          (m : List (W × W)) (ls : List (PriceLevel W))
          → HasNumbers ls
          → IsSorted before IsNumber m
          → IsSorted before IsNumber (apply_levels before m ls)
      unfolding apply_levels
      apply_levels-IsSorted m [] g s = s
      apply_levels-IsSorted m (l ∷ ls) (g, gs) s =
          apply_levels-IsSorted (apply_level before m l) ls gs (apply_level-IsSorted m l g s)

      find-apply_level :
          (p : W) (m : List (W × W)) (l : PriceLevel W)
          → IsNumber p
          → IsNumber l.price
          → IsSorted before IsNumber m
          → find before p (apply_level before m l) ≡ (
              if equivalent before l.price p
              then (if d.le l.quantity d.nought then none else some l.quantity)
              else find before p m)
      find-apply_level p m l gp gl s = ground (
        arith,
        find-erase before IsNumber laws p l.price m gp gl s,
        find-assign before IsNumber laws p l.price l.quantity m gp gl s,
      )

      pub find-apply_levels :
          (p : W) (m : List (W × W)) (ls : List (PriceLevel W))
          → IsNumber p
          → HasNumbers ls
          → IsSorted before IsNumber m
          → find before p (apply_levels before m ls) ≡ replay before ls p (find before p m)
      unfolding apply_levels
      find-apply_levels p m [] gp gs s = refl
      find-apply_levels p m (l ∷ ls) gp (g, gs) s =
          rw (← find-apply_level p m l gp g s)
            (find-apply_levels p (apply_level before m l) ls gp gs (apply_level-IsSorted m l g s))
