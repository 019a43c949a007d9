-- ===== src/Scan/Tests.antt =====
-- A scan of a store with one ready pair.
use arbitrage_engine.Base.{ℕ, ◌≡◌, refl, [], ◌∷◌, codes, text_eq, pos}
use arbitrage_engine.Double.{nat_double}
use arbitrage_engine.Config.{Config, default_exchange, default_market_data}
use arbitrage_engine.MarketData.{Store}
use arbitrage_engine.Dict.{lookup}
use arbitrage_engine.Engine.Tests.{cheap, dear, symbol}
use arbitrage_engine.Scan.Laws.{count_pairs}

abbrev store : Store ℕ
store = record { binance_books = (symbol, cheap) ∷ []; mexc_books = (symbol, dear) ∷ [] }

abbrev pub config : Config ℕ
config = record {
  log_level = codes "info";
  market_data = default_market_data;
  symbols = symbol ∷ codes "ETHUSDT" ∷ [];
  binance = record default_exchange {
    rest_base_url = codes "https://api.b";
    ws_base_url = codes "wss://w.b";
  };
  mexc = record default_exchange {
    rest_base_url = codes "https://api.m";
    ws_base_url = codes "wss://w.m";
  };
  arbitrage = record {
    min_net_spread_bps = pos 10;
    max_book_age_ms = pos 500;
    min_notional_usdt = 20;
    max_notional_usdt = 1000;
  };
  binance_fees = record { taker_bps = 10 };
  mexc_fees = record { taker_bps = 10 };
}

one_pair : count_pairs store config.symbols ≡ 1
unfolding lookup text_eq
one_pair = refl
