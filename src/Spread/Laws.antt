-- ===== src/Spread/Laws.antt =====
-- The direction that the top-of-book spread chooses.
use arbitrage_engine.Base.{◌≡◌, ◌⊎◌, refl, false, some, arith, Text}
use arbitrage_engine.Double.{Double, IsOrdered}
use arbitrage_engine.Core.{Exchange, PriceLevel}
use arbitrage_engine.Config.{Config}
use arbitrage_engine.Engine.{Settings}
use arbitrage_engine.OrderBook.{OrderBook, best_bid, best_ask}
use arbitrage_engine.Spread.{
  TopOfBookSpread, gross_bps, total_fee, compute_top_of_book_spread, make_arbitrage_settings,
}

module _ {W : Type 0} ⦃d : Double W⦄ where
  -- The engine's settings for a configuration: 50 levels, and each exchange at its own taker fee.
  abbrev pub configured : Config W → Settings W
  configured c = record {
    min_net_spread_bps = d.of_int c.arbitrage.min_net_spread_bps;
    min_notional_usdt = c.arbitrage.min_notional_usdt;
    max_notional_usdt = c.arbitrage.max_notional_usdt;
    binance_taker_fee_bps = c.binance_fees.taker_bps;
    mexc_taker_fee_bps = c.mexc_fees.taker_bps;
    max_depth_levels = 50;
  }

  pub make_arbitrage_settings_lem : (c : Config W) → make_arbitrage_settings c ≡ configured c
  unfolding make_arbitrage_settings
  make_arbitrage_settings_lem c = refl

  -- The net spread of buying at an ask and selling at a bid.
  abbrev pub net_bps : PriceLevel W → PriceLevel W → Config W → W
  net_bps bid ask c = d.sub (gross_bps bid ask) (total_fee c)

  -- The spread is of the best levels of the two books, both asks are positive, and its net spread is
  -- that of its direction and is not below that of the other.
  pub record IsBest (binance_book mexc_book : OrderBook W) (c : Config W) (s : TopOfBookSpread W)
      : Type 0 where
    pub of_binance_bid : best_bid binance_book ≡ some s.binance_bid
    pub of_binance_ask : best_ask binance_book ≡ some s.binance_ask
    pub of_mexc_bid : best_bid mexc_book ≡ some s.mexc_bid
    pub of_mexc_ask : best_ask mexc_book ≡ some s.mexc_ask
    pub positive :
        (d.le s.binance_ask.price d.nought ≡ false) × (d.le s.mexc_ask.price d.nought ≡ false)
    pub net_account : s.net_spread_bps ≡ d.sub s.gross_spread_bps s.total_fee_bps
    pub direction :
        ((s.buy_exchange ≡ Exchange.binance)
          × (s.sell_exchange ≡ Exchange.mexc)
          × (s.net_spread_bps ≡ net_bps s.mexc_bid s.binance_ask c))
        ⊎ ((s.buy_exchange ≡ Exchange.mexc)
            × (s.sell_exchange ≡ Exchange.binance)
            × (s.net_spread_bps ≡ net_bps s.binance_bid s.mexc_ask c))
    pub best_forward : d.lt s.net_spread_bps (net_bps s.mexc_bid s.binance_ask c) ≡ false
    pub best_backward : d.lt s.net_spread_bps (net_bps s.binance_bid s.mexc_ask c) ≡ false

  module _ (o : IsOrdered W) where
    lt_irrefl : (x : W) → d.lt x x ≡ false
    lt_irrefl x = ground (arith, o.lt_asym x x)

    -- A reported spread stands between the best levels of the two books, with positive asks, in the
    -- direction whose net spread is not below the other's.
    pub compute_top_of_book_spread-IsBest :
        (symbol : Text) (binance_book mexc_book : OrderBook W) (c : Config W)
        (s : TopOfBookSpread W)
        → compute_top_of_book_spread symbol binance_book mexc_book c ≡ some s
        → IsBest binance_book mexc_book c s
    unfolding compute_top_of_book_spread
    compute_top_of_book_spread-IsBest symbol binance_book mexc_book c s e = ground (
      arith,
      lt_irrefl s.net_spread_bps,
      o.lt_asym (net_bps s.mexc_bid s.binance_ask c) (net_bps s.binance_bid s.mexc_ask c),
    )
