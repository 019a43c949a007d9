-- ===== src/Config/Load.antt =====
-- src/config/Config.cpp: `load_config`, over what it uses of yaml-cpp.
use arbitrage_engine.Base.{
  ℕ, ℤ, pos, Bool, true, false, ◌&&◌, not, ◌==◌, List, [], ◌∷◌, Text, codes, Result, ok, thrown,
  ◌>>=◌, ◌>>◌,
}
use arbitrage_engine.Strings.{to_upper}
use arbitrage_engine.Config.{
  ExchangeSettings, default_exchange, MarketDataSettings, default_market_data, ArbitrageSettings,
  FeeSettings, Config,
}

-- The operations of `YAML::Node` that the file calls. A node may be undefined: that is what a missing
-- key gives, and `as` with a fallback gives the fallback there.
pub record Yaml (N W : Type 0) : Type 0 where
  -- `YAML::LoadFile`
  pub load_file : Text → Result N
  -- `node[key]`, which throws on an undefined node
  pub child : N → Text → Result N
  -- the conversion to bool
  pub is_defined : N → Bool
  pub is_sequence : N → Bool
  -- the elements that the range loop visits
  pub elements : N → List N
  -- `as<std::string>()`
  pub text : N → Result Text
  -- `as<T>(fallback)`
  pub bool_or : N → Bool → Bool
  pub text_or : N → Text → Text
  pub size_or : N → ℕ → ℕ
  pub int_or : N → ℤ → ℤ
  pub double_or : N → W → W

-- The literals of type double in the two files.
pub record Defaults (W : Type 0) : Type 0 where
  pub min_notional_usdt : W
  pub max_notional_usdt : W
  pub taker_bps : W

abbrev pub guard : Bool → Text → Result (Unit {0})
guard true e = ok tt
guard false e = thrown e

abbrev pub is_empty {ℓ} : {A : Type ℓ} → List A → Bool
is_empty [] = true
is_empty (x ∷ xs) = false

-- The body of an `if`, or the value as it was.
abbrev pub when {ℓ} : {A : Type ℓ} → Bool → A → Result A → Result A
when true a r = r
when false a r = ok a

unfoldable pub check_exchange : ExchangeSettings → Result ExchangeSettings
check_exchange s = do
  guard (not (s.enabled && is_empty s.ws_base_url)) (codes "Enabled exchange must have ws_base_url")
  guard (not (s.enabled && (s.max_streams_per_connection == 0)))
      (codes "max_streams_per_connection must be greater than zero")
  ok s

module _ {N W : Type 0} (y : Yaml N W) where
  unfoldable pub read_exchange : N → Result ExchangeSettings
  read_exchange node = do
    enabled ← y.child node (codes "enabled")
    ws ← y.child node (codes "ws_base_url")
    rest ← y.child node (codes "rest_base_url")
    max ← y.child node (codes "max_streams_per_connection")
    ok (record {
      enabled = y.bool_or enabled false;
      ws_base_url = y.text_or ws [];
      rest_base_url = y.text_or rest [];
      max_streams_per_connection = y.size_or max 1;
    })

  unfoldable pub parse_exchange_settings : N → Result ExchangeSettings
  parse_exchange_settings node =
      when (y.is_defined node) default_exchange (do s ← read_exchange node; check_exchange s)

  -- The loop over the symbols.
  unfoldable pub read_symbols : List N → Result (List Text)
  read_symbols [] = ok []
  read_symbols (n ∷ ns) = do
    symbol ← y.text n
    guard (not (is_empty symbol)) (codes "Symbol cannot be empty")
    symbols ← read_symbols ns
    ok (to_upper symbol ∷ symbols)

  unfoldable pub load_symbols : N → Result (List Text)
  load_symbols root = do
    node ← y.child root (codes "symbols")
    guard (y.is_defined node && y.is_sequence node) (codes "config.yaml must contain symbols list")
    symbols ← read_symbols (y.elements node)
    guard (not (is_empty symbols)) (codes "At least one symbol is required")
    ok symbols

  unfoldable pub load_log_level : N → Result Text
  load_log_level root = do
    app ← y.child root (codes "app")
    when (y.is_defined app) (codes "info")
        (do level ← y.child app (codes "log_level"); ok (y.text_or level (codes "info")))

  unfoldable pub load_market_data : N → Result MarketDataSettings
  load_market_data root = do
    node ← y.child root (codes "market_data")
    when (y.is_defined node) default_market_data (do
      speed ← y.child node (codes "update_speed")
      limit ← y.child node (codes "book_snapshot_limit")
      ok (record {
        update_speed = y.text_or speed (codes "100ms");
        book_snapshot_limit = y.int_or limit (pos 1000);
      }))

  unfoldable pub load_exchanges : N → Result (ExchangeSettings × ExchangeSettings)
  load_exchanges root = do
    node ← y.child root (codes "exchanges")
    when (y.is_defined node) (default_exchange, default_exchange)
        (do
          b ← y.child node (codes "binance")
          binance ← parse_exchange_settings b
          m ← y.child node (codes "mexc")
          mexc ← parse_exchange_settings m
          ok (binance, mexc))

module _ {N W : Type 0} (y : Yaml N W) (defaults : Defaults W) where
  abbrev pub default_arbitrage : ArbitrageSettings W
  default_arbitrage = record {
    min_net_spread_bps = pos 10;
    max_book_age_ms = pos 500;
    min_notional_usdt = defaults.min_notional_usdt;
    max_notional_usdt = defaults.max_notional_usdt;
  }

  unfoldable pub load_arbitrage : N → Result (ArbitrageSettings W)
  load_arbitrage root = do
    node ← y.child root (codes "arbitrage")
    when (y.is_defined node) default_arbitrage (do
      spread ← y.child node (codes "min_net_spread_bps")
      age ← y.child node (codes "max_book_age_ms")
      least ← y.child node (codes "min_notional_usdt")
      most ← y.child node (codes "max_notional_usdt")
      ok (record {
        min_net_spread_bps = y.int_or spread (pos 10);
        max_book_age_ms = y.int_or age (pos 500);
        min_notional_usdt = y.double_or least defaults.min_notional_usdt;
        max_notional_usdt = y.double_or most defaults.max_notional_usdt;
      }))

  abbrev pub default_fees : FeeSettings W
  default_fees = record { taker_bps = defaults.taker_bps }

  abbrev pub fees_of : N → Text → Result (FeeSettings W)
  fees_of node key = do
    exchange ← y.child node key
    taker ← y.child exchange (codes "taker_bps")
    ok (record { taker_bps = y.double_or taker defaults.taker_bps })

  unfoldable pub load_fees : N → Result (FeeSettings W × FeeSettings W)
  load_fees root = do
    node ← y.child root (codes "fees")
    when (y.is_defined node) (default_fees, default_fees)
        (do
          binance ← fees_of node (codes "binance")
          mexc ← fees_of node (codes "mexc")
          ok (binance, mexc))

  unfoldable pub load_config : Text → Result (Config W)
  load_config path = do
    root ← y.load_file path
    log_level ← load_log_level y root
    market_data ← load_market_data y root
    symbols ← load_symbols y root
    exchanges ← load_exchanges y root
    arbitrage ← load_arbitrage root
    fees ← load_fees root
    ok (record {
      log_level = log_level;
      market_data = market_data;
      symbols = symbols;
      binance = exchanges.0;
      mexc = exchanges.1;
      arbitrage = arbitrage;
      binance_fees = fees.0;
      mexc_fees = fees.1;
    })
