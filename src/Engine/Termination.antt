-- ===== src/Engine/Termination.antt =====
-- The loop of `evaluate_direction` ends: the fuel that is enough for it.
use arbitrage_engine.Base.{
  ℕ, zero, suc, ◌+◌, ◌≤◌, ◌<◌, ◌≡◌, ◌⊎◌, inl, inr, refl, true, false, Option, none, some, List, [],
  ◌∷◌, arith, length, Option-cases,
}
use arbitrage_engine.Double.{Double, nat_double}
use arbitrage_engine.Core.{PriceLevel}
use arbitrage_engine.Engine.{
  Walk, min3, advance, trade, executable_qty, round_at, round_on, round, walk,
}

-- A rank of the values in their order, and what rounding leaves of three subtractions. IEEE 754
-- doubles have these: they are finitely many, a subtraction of a value that is not negative rounds to
-- no more than before, `x - x` is 0 for a finite `x`, and `c / p * p` is positive and within a few
-- units of the last place of `c`. Where an operand is infinite or NaN the cap that is left is not above
-- `kEpsilon`.
pub record HasRank (W : Type 0) ⦃d : Double W⦄ : Type 0 where
  pub rank : W → ℕ
  pub spend :
      (c x p : W)
      → d.le x d.epsilon ≡ false
      → d.le p d.nought ≡ false
      → (rank (d.sub c (d.mul x p)) ≤ rank c) ⊎ (d.lt d.epsilon (d.sub c (d.mul x p)) ≡ false)
  pub use_up :
      (c x p : W)
      → d.le x d.epsilon ≡ false
      → d.le p d.nought ≡ false
      → (d.le (d.sub x x) d.epsilon ≡ true) ⊎ (d.lt d.epsilon (d.sub c (d.mul x p)) ≡ false)
  pub exhaust :
      (c p : W)
      → d.lt d.epsilon c ≡ true
      → d.le (d.div c p) d.epsilon ≡ false
      → d.le p d.nought ≡ false
      → (rank (d.sub c (d.mul (d.div c p) p)) < rank c)
        ⊎ (d.lt d.epsilon (d.sub c (d.mul (d.div c p) p)) ≡ false)

module _ {W : Type 0} ⦃d : Double W⦄ where
  min3_cases : (a b c : W) → (min3 a b c ≡ a) ⊎ (min3 a b c ≡ b) ⊎ (min3 a b c ≡ c)
  min3_cases a b c = ground arith

  length-advance :
      (ls : List (PriceLevel W)) (left : W)
      → (length (advance ls left).0 ≤ length ls)
        × (d.le left d.epsilon ≡ true → 0 < length ls → length (advance ls left).0 < length ls)
  length-advance [] left = ground arith
  length-advance (l ∷ []) left = ground arith
  length-advance (l ∷ k ∷ ls) left = ground arith

  module _ (h : HasRank W) where
    open h use {rank, spend, use_up, exhaust}

    unfoldable pub measure : Walk W → ℕ
    measure w = length w.asks + length w.bids + rank w.remaining_buy_notional_cap

    -- A trade of any of the three quantities uses up a level or cap, or leaves no cap to go on with.
    trade_progress :
        (w : Walk W) (q p r : W)
        → 0 < length w.asks
        → 0 < length w.bids
        → d.lt d.epsilon w.remaining_buy_notional_cap ≡ true
        → d.le p d.nought ≡ false
        → d.le q d.epsilon ≡ false
        → (q ≡ w.ask_remaining_qty)
          ⊎ (q ≡ w.bid_remaining_qty)
          ⊎ (q ≡ d.div w.remaining_buy_notional_cap p)
        → let w' = trade w q p r in
          (measure w' < measure w) ⊎ (d.lt d.epsilon w'.remaining_buy_notional_cap ≡ false)
    unfolding measure trade
    trade_progress w q p r ea eb cap pos qty which = ground (
      arith,
      length-advance w.asks (d.sub w.ask_remaining_qty q),
      length-advance w.bids (d.sub w.bid_remaining_qty q),
      spend w.remaining_buy_notional_cap q p,
      use_up w.remaining_buy_notional_cap q p,
      exhaust w.remaining_buy_notional_cap p,
    )

    round_at_progress :
        (a b : PriceLevel W) (w w' : Walk W)
        → 0 < length w.asks
        → 0 < length w.bids
        → round_at a b w ≡ some w'
        → (measure w' < measure w) ⊎ (d.lt d.epsilon w'.remaining_buy_notional_cap ≡ false)
    unfolding round_at
    round_at_progress a b w w' la lb e =
        let q = executable_qty w a.price in
        ground (
          arith,
          trade_progress w q a.price b.price la lb,
          min3_cases w.ask_remaining_qty w.bid_remaining_qty
              (d.div w.remaining_buy_notional_cap a.price),
        )

    round_on_progress :
        (asks bids : List (PriceLevel W)) (w w' : Walk W)
        → w.asks ≡ asks
        → w.bids ≡ bids
        → round_on asks bids w ≡ some w'
        → (measure w' < measure w) ⊎ (d.lt d.epsilon w'.remaining_buy_notional_cap ≡ false)
    round_on_progress [] bids w w' ea eb e = cc
    round_on_progress (a ∷ asks) [] w w' ea eb e = cc
    round_on_progress (a ∷ asks) (b ∷ bids) w w' ea eb e =
        round_at_progress a b w w' (rw ea (omega arith)) (rw eb (omega arith)) e

    -- With no cap above `kEpsilon` the loop ends.
    round_on_capless :
        (asks bids : List (PriceLevel W)) (w : Walk W)
        → d.lt d.epsilon w.remaining_buy_notional_cap ≡ false
        → round_on asks bids w ≡ none
    unfolding round_at
    round_on_capless [] bids w e = refl
    round_on_capless (a ∷ asks) [] w e = refl
    round_on_capless (a ∷ asks) (b ∷ bids) w e = rw e refl

    -- The loop ends by its own test.
    abbrev pub Ends : Option (Walk W) → Type 0
    Ends none = ⊥
    Ends (some w) = round w ≡ none

    walk_capless :
        (fuel : ℕ) (w : Walk W)
        → d.lt d.epsilon w.remaining_buy_notional_cap ≡ false
        → Ends (walk (suc fuel) w)
    unfolding walk
    walk_capless fuel w e = let done = round_on_capless w.asks w.bids w e in rw (done, walk) done

    pub walk-Ends : (fuel : ℕ) (w : Walk W) → measure w + 1 < fuel → Ends (walk fuel w)
    unfolding walk
    walk-Ends zero w m = absurd (omega arith)
    walk-Ends (suc zero) w m = absurd (omega arith)
    walk-Ends (suc (suc fuel)) w m = elim (Option-cases (round w)) [
      | inl e ↦ rw (e, walk) e
      | inr (w', e) ↦ elim (round_on_progress w.asks w.bids w w' refl refl e) [
        | inl less ↦ rw (e, walk) (walk-Ends (suc fuel) w' (omega arith))
        | inr capless ↦ rw (e, walk) (walk_capless fuel w' capless)
      ]
    ]
