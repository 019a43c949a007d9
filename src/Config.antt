-- ===== src/Config.antt =====
-- src/config/Config.hpp: the settings, with the defaults of their members.
pub mod Load
pub mod Tests
pub mod Sound
use arbitrage_engine.Base.{ℕ, ℤ, pos, Bool, false, List, [], Text, codes}

pub record ExchangeSettings : Type 0 where
  pub enabled : Bool
  pub ws_base_url : Text
  pub rest_base_url : Text
  pub max_streams_per_connection : ℕ

abbrev pub default_exchange : ExchangeSettings
default_exchange = record {
  enabled = false;
  ws_base_url = [];
  rest_base_url = [];
  max_streams_per_connection = 1;
}

pub record MarketDataSettings : Type 0 where
  pub update_speed : Text
  pub book_snapshot_limit : ℤ

abbrev pub default_market_data : MarketDataSettings
default_market_data = record { update_speed = codes "100ms"; book_snapshot_limit = pos 1000 }

pub record ArbitrageSettings (W : Type 0) : Type 0 where
  pub min_net_spread_bps : ℤ
  pub max_book_age_ms : ℤ
  pub min_notional_usdt : W
  pub max_notional_usdt : W

pub record FeeSettings (W : Type 0) : Type 0 where
  pub taker_bps : W

pub record Config (W : Type 0) : Type 0 where
  pub log_level : Text
  pub market_data : MarketDataSettings
  pub symbols : List Text
  pub binance : ExchangeSettings
  pub mexc : ExchangeSettings
  pub arbitrage : ArbitrageSettings W
  pub binance_fees : FeeSettings W
  pub mexc_fees : FeeSettings W
