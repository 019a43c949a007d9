-- ===== src/Spread.antt =====
-- src/main.cpp: the spread between the best levels of the two exchanges, and the settings of the
-- engine.
pub mod Laws
mod Tests
use arbitrage_engine.Base.{Bool, true, false, ◌||◌, Option, none, some, if◌then◌else◌, Text, pos}
use arbitrage_engine.Double.{Double}
use arbitrage_engine.Core.{Exchange, PriceLevel}
use arbitrage_engine.Config.{Config}
use arbitrage_engine.OrderBook.{OrderBook, best_bid, best_ask}
use arbitrage_engine.Engine.{Settings}

pub record TopOfBookSpread (W : Type 0) : Type 0 where
  pub symbol : Text
  pub binance_bid : PriceLevel W
  pub binance_ask : PriceLevel W
  pub mexc_bid : PriceLevel W
  pub mexc_ask : PriceLevel W
  pub buy_exchange : Exchange
  pub sell_exchange : Exchange
  pub gross_spread_bps : W
  pub total_fee_bps : W
  pub net_spread_bps : W

module _ {W : Type 0} ⦃d : Double W⦄ where
  -- `((bid - ask) / ask) * 10000.0`
  abbrev pub gross_bps : PriceLevel W → PriceLevel W → W
  gross_bps bid ask = d.mul (d.div (d.sub bid.price ask.price) ask.price) d.bps

  abbrev pub total_fee : Config W → W
  total_fee c = d.add c.binance_fees.taker_bps c.mexc_fees.taker_bps

  -- `compute_top_of_book_spread`, for the four levels that it finds.
  unfoldable pub spread_of :
      Text
      → PriceLevel W
      → PriceLevel W
      → PriceLevel W
      → PriceLevel W
      → Config W
      → Option (TopOfBookSpread W)
  spread_of symbol binance_bid binance_ask mexc_bid mexc_ask c =
      let fee = total_fee c in
      let gross = gross_bps mexc_bid binance_ask in
      let other_gross = gross_bps binance_bid mexc_ask in
      let other_net = d.sub other_gross fee in
      let spread : TopOfBookSpread W = record {
        symbol = symbol;
        binance_bid = binance_bid;
        binance_ask = binance_ask;
        mexc_bid = mexc_bid;
        mexc_ask = mexc_ask;
        buy_exchange = Exchange.binance;
        sell_exchange = Exchange.mexc;
        gross_spread_bps = gross;
        total_fee_bps = fee;
        net_spread_bps = d.sub gross fee;
      } in
      if d.le binance_ask.price d.nought || d.le mexc_ask.price d.nought
      then none
      else if d.lt (d.sub gross fee) other_net
      then some (record spread {
        buy_exchange = Exchange.mexc;
        sell_exchange = Exchange.binance;
        gross_spread_bps = other_gross;
        net_spread_bps = other_net;
      })
      else some spread

  abbrev pub when_all :
      Option (PriceLevel W)
      → Option (PriceLevel W)
      → Option (PriceLevel W)
      → Option (PriceLevel W)
      → (PriceLevel W → PriceLevel W → PriceLevel W → PriceLevel W → Option (TopOfBookSpread W))
      → Option (TopOfBookSpread W)
  when_all (some a) (some b) (some c) (some e) f = f a b c e
  when_all _ _ _ _ f = none

  unfoldable pub compute_top_of_book_spread :
      Text → OrderBook W → OrderBook W → Config W → Option (TopOfBookSpread W)
  unfolding spread_of
  compute_top_of_book_spread symbol binance_book mexc_book c =
      when_all (best_bid binance_book) (best_ask binance_book) (best_bid mexc_book)
        (best_ask mexc_book)
        (λ binance_bid binance_ask mexc_bid mexc_ask.
          spread_of symbol binance_bid binance_ask mexc_bid mexc_ask c)

  unfoldable pub make_arbitrage_settings : Config W → Settings W
  make_arbitrage_settings c = record {
    min_net_spread_bps = d.of_int c.arbitrage.min_net_spread_bps;
    min_notional_usdt = c.arbitrage.min_notional_usdt;
    max_notional_usdt = c.arbitrage.max_notional_usdt;
    binance_taker_fee_bps = c.binance_fees.taker_bps;
    mexc_taker_fee_bps = c.mexc_fees.taker_bps;
    max_depth_levels = 50;
  }
