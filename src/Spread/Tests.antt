-- ===== src/Spread/Tests.antt =====
-- The top-of-book spread on concrete books, with whole numbers for prices.
use arbitrage_engine.Base.{ℕ, ◌≡◌, refl, true, [], ◌∷◌, codes, pos, some}
use arbitrage_engine.Double.{nat_double, nat-IsOrdered}
use arbitrage_engine.Core.{Exchange}
use arbitrage_engine.Config.{Config, default_exchange, default_market_data}
use arbitrage_engine.OrderBook.{OrderBook, best_bid, best_ask}
use arbitrage_engine.Spread.{TopOfBookSpread, compute_top_of_book_spread}
use arbitrage_engine.Spread.Laws.{IsBest, compute_top_of_book_spread-IsBest}

abbrev config : Config ℕ
config = record {
  log_level = codes "info";
  market_data = default_market_data;
  symbols = codes "BTCUSDT" ∷ [];
  binance = default_exchange;
  mexc = default_exchange;
  arbitrage = record {
    min_net_spread_bps = pos 10;
    max_book_age_ms = pos 500;
    min_notional_usdt = 20;
    max_notional_usdt = 1000;
  };
  binance_fees = record { taker_bps = 10 };
  mexc_fees = record { taker_bps = 5 };
}

abbrev binance_book : OrderBook ℕ
binance_book = record {
  bids = (150, 1) ∷ [];
  asks = (160, 1) ∷ [];
  last_update_id = 1;
  initialized = true;
}

abbrev mexc_book : OrderBook ℕ
mexc_book = record {
  bids = (40, 1) ∷ [];
  asks = (50, 2) ∷ [];
  last_update_id = 1;
  initialized = true;
}

abbrev spread : TopOfBookSpread ℕ
spread = record {
  symbol = codes "BTCUSDT";
  binance_bid = record { price = 150; quantity = 1 };
  binance_ask = record { price = 160; quantity = 1 };
  mexc_bid = record { price = 40; quantity = 1 };
  mexc_ask = record { price = 50; quantity = 2 };
  buy_exchange = Exchange.mexc;
  sell_exchange = Exchange.binance;
  gross_spread_bps = 20000;
  total_fee_bps = 15;
  net_spread_bps = 19985;
}

backward : compute_top_of_book_spread (codes "BTCUSDT") binance_book mexc_book config ≡ some spread
unfolding compute_top_of_book_spread best_bid best_ask
backward = refl

compute_top_of_book_spread-IsBest_example : IsBest binance_book mexc_book config spread
compute_top_of_book_spread-IsBest_example =
    compute_top_of_book_spread-IsBest nat-IsOrdered (codes "BTCUSDT") binance_book mexc_book config
      spread backward
