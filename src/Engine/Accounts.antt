-- ===== src/Engine/Accounts.antt =====
-- What an opportunity says: the guards that it has passed, its accounts, and its gross profit.
use arbitrage_engine.Base.{
  ℕ, zero, suc, ◌≡◌, inl, inr, refl, false, some, List, [], ◌∷◌, arith, Option-cases, Text,
}
use arbitrage_engine.Double.{Double}
use arbitrage_engine.Core.{Exchange, PriceLevel}
use arbitrage_engine.OrderBook.{OrderBook}
use arbitrage_engine.Engine.{
  Settings, Opportunity, Walk, trade, executable_qty, round_at, round_on, round, walk, start_walk,
  taker_fee_bps, opportunity_of, conclude, evaluate_levels, evaluate_direction,
}

-- How rounding treats two values that are not in the wrong order. IEEE 754 doubles have these, NaN
-- and the infinities included, since every operator is monotone and a comparison with NaN fails.
pub record IsMonotone (W : Type 0) ⦃d : Double W⦄ : Type 0 where
  pub nought_irrefl : d.lt d.nought d.nought ≡ false
  pub add_mono :
      (x y z w : W) → d.lt x y ≡ false → d.lt z w ≡ false → d.lt (d.add x z) (d.add y w) ≡ false
  pub mul_mono :
      (q x y : W)
      → d.le q d.epsilon ≡ false
      → d.le x d.nought ≡ false
      → d.le y x ≡ false
      → d.lt (d.mul q y) (d.mul q x) ≡ false
  pub sub_nonneg : (x y : W) → d.lt x y ≡ false → d.lt (d.sub x y) d.nought ≡ false

module _ {W : Type 0} ⦃d : Double W⦄ where
  -- The fee that each exchange takes.
  abbrev pub IsFee : Settings W → Exchange → W → Type 0
  IsFee s Exchange.binance fee = fee ≡ s.binance_taker_fee_bps
  IsFee s Exchange.mexc fee = fee ≡ s.mexc_taker_fee_bps

  taker_fee_bps-IsFee : (s : Settings W) (e : Exchange) → IsFee s e (taker_fee_bps s e)
  taker_fee_bps-IsFee s Exchange.binance = refl
  taker_fee_bps-IsFee s Exchange.mexc = refl

  -- The guards of `evaluate_direction` and its accounts, for the settings and the call.
  pub record IsSound (s : Settings W) (symbol : Text) (buy sell : Exchange) (o : Opportunity W)
      : Type 0 where
    pub of_symbol : o.symbol ≡ symbol
    pub buys_at : o.buy_exchange ≡ buy
    pub sells_at : o.sell_exchange ≡ sell
    pub quantity_above : d.le o.base_quantity d.epsilon ≡ false
    pub notional_above : d.le o.buy_notional_usdt d.epsilon ≡ false
    pub notional_min : d.lt o.buy_notional_usdt s.min_notional_usdt ≡ false
    pub net_spread_min : d.lt o.net_spread_bps s.min_net_spread_bps ≡ false
    pub gross_account : o.gross_profit_usdt ≡ d.sub o.sell_notional_usdt o.buy_notional_usdt
    pub buy_fee : W
    pub of_buy_fee : IsFee s buy buy_fee
    pub sell_fee : W
    pub of_sell_fee : IsFee s sell sell_fee
    pub fees_account :
        o.fees_usdt
        ≡ d.add
            (d.div (d.mul o.buy_notional_usdt buy_fee) d.bps)
            (d.div (d.mul o.sell_notional_usdt sell_fee) d.bps)
    pub net_account : o.net_profit_usdt ≡ d.sub o.gross_profit_usdt o.fees_usdt
    pub net_spread_account :
        o.net_spread_bps ≡ d.mul (d.div o.net_profit_usdt o.buy_notional_usdt) d.bps

  conclude-IsSound :
      (s : Settings W) (symbol : Text) (buy sell : Exchange) (w : Walk W) (o : Opportunity W)
      → conclude s symbol buy sell w ≡ some o
      → IsSound s symbol buy sell o
  unfolding conclude
  conclude-IsSound s symbol buy sell w o e = record {
    of_symbol = ground arith;
    buys_at = ground arith;
    sells_at = ground arith;
    quantity_above = ground arith;
    notional_above = ground arith;
    notional_min = ground arith;
    net_spread_min = ground arith;
    gross_account = ground arith;
    buy_fee = taker_fee_bps s buy;
    of_buy_fee = taker_fee_bps-IsFee s buy;
    sell_fee = taker_fee_bps s sell;
    of_sell_fee = taker_fee_bps-IsFee s sell;
    fees_account = ground arith;
    net_account = ground arith;
    net_spread_account = ground arith;
  }

  -- The books of an opportunity are those of the walk that it concludes.
  conclude_walk :
      (s : Settings W) (symbol : Text) (buy sell : Exchange) (w : Walk W) (o : Opportunity W)
      → conclude s symbol buy sell w ≡ some o
      → o ≡ opportunity_of s symbol buy sell w
  unfolding conclude
  conclude_walk s symbol buy sell w o e = ground arith

  evaluate_levels_cases :
      (fuel : ℕ) (s : Settings W) (symbol : Text) (buy sell : Exchange)
      (asks bids : List (PriceLevel W)) (o : Opportunity W)
      → evaluate_levels fuel s symbol buy sell asks bids ≡ some (some o)
      → (a b : PriceLevel W) × (as' bs : List (PriceLevel W)) × (w : Walk W) × (walk fuel
            (start_walk s.max_notional_usdt a as' b bs)
          ≡ some w)
        × (conclude s symbol buy sell w ≡ some o)
  unfolding evaluate_levels
  evaluate_levels_cases fuel s symbol buy sell [] bids o e = absurd (ground arith)
  evaluate_levels_cases fuel s symbol buy sell (a ∷ asks) [] o e = absurd (ground arith)
  evaluate_levels_cases fuel s symbol buy sell (a ∷ asks) (b ∷ bids) o e =
      elim (Option-cases (walk fuel (start_walk s.max_notional_usdt a asks b bids))) [
        | inl n ↦ absurd (ground arith)
        | inr (w, n) ↦ (a, b, asks, bids, w, n, ground arith)
      ]

  -- An opportunity that `evaluate_direction` reports is for the symbol and the two exchanges of the
  -- call, its quantity and buying notional are above `kEpsilon`, the notional and the net spread are
  -- not below the settings' minima, and its profit, fees and net spread are the differences, sums
  -- and ratios of its two notionals at the exchanges' own taker fees.
  pub evaluate_direction-IsSound :
      (fuel : ℕ) (s : Settings W) (symbol : Text) (buy sell : Exchange)
      (buy_book sell_book : OrderBook W) (o : Opportunity W)
      → evaluate_direction fuel s symbol buy sell buy_book sell_book ≡ some (some o)
      → IsSound s symbol buy sell o
  unfolding evaluate_direction
  evaluate_direction-IsSound fuel s symbol buy sell buy_book sell_book o e =
      let (a, b, as', bs, w, n, c) = evaluate_levels_cases fuel s symbol buy sell _ _ o e in
      conclude-IsSound s symbol buy sell w o c

  module _ (mono : IsMonotone W) where
    open mono use {nought_irrefl, add_mono, mul_mono, sub_nonneg}

    abbrev NoLoss : Walk W → Type 0
    NoLoss w = d.lt w.sell_notional w.buy_notional ≡ false

    round_at-NoLoss :
        (a b : PriceLevel W) (w w' : Walk W) → round_at a b w ≡ some w' → NoLoss w → NoLoss w'
    unfolding round_at trade
    round_at-NoLoss a b w w' e h =
        let q = executable_qty w a.price in
        ground (
          arith,
          mul_mono q a.price b.price,
          add_mono w.sell_notional w.buy_notional (d.mul q b.price) (d.mul q a.price) h,
        )

    round_on-NoLoss :
        (asks bids : List (PriceLevel W)) (w w' : Walk W)
        → round_on asks bids w ≡ some w'
        → NoLoss w
        → NoLoss w'
    round_on-NoLoss [] bids w w' e h = absurd (cc)
    round_on-NoLoss (a ∷ asks) [] w w' e h = absurd (cc)
    round_on-NoLoss (a ∷ asks) (b ∷ bids) w w' e h = round_at-NoLoss a b w w' e h

    walk-NoLoss : (fuel : ℕ) (w w' : Walk W) → walk fuel w ≡ some w' → NoLoss w → NoLoss w'
    unfolding walk
    walk-NoLoss zero w w' e h = absurd (cc)
    walk-NoLoss (suc fuel) w w' e h = elim (Option-cases (round w)) [
      | inl n ↦ ground arith
      | inr (v, n) ↦ walk-NoLoss fuel v w' (ground arith) (round_on-NoLoss w.asks w.bids w v n h)
    ]

    -- Where rounding is monotone, no opportunity sells for less than it buys: its gross profit is not
    -- negative.
    pub evaluate_direction_gross :
        (fuel : ℕ) (s : Settings W) (symbol : Text) (buy sell : Exchange)
        (buy_book sell_book : OrderBook W) (o : Opportunity W)
        → evaluate_direction fuel s symbol buy sell buy_book sell_book ≡ some (some o)
        → (d.lt o.sell_notional_usdt o.buy_notional_usdt ≡ false)
          × (d.lt o.gross_profit_usdt d.nought ≡ false)
    unfolding evaluate_direction opportunity_of
    evaluate_direction_gross fuel s symbol buy sell buy_book sell_book o e =
        let (a, b, as', bs, w, n, c) = evaluate_levels_cases fuel s symbol buy sell _ _ o e in
        let start = start_walk s.max_notional_usdt a as' b bs in
        let fair = walk-NoLoss fuel start w n nought_irrefl in
        rw (conclude_walk s symbol buy sell w o c) (fair, sub_nonneg _ _ fair)
