-- ===== src/Config/Tests.antt =====
-- Loading a configuration from a small document in place of the YAML library's nodes.
use arbitrage_engine.Base.{
  ℕ, ◌≡◌, refl, Bool, true, false, List, [], ◌∷◌, Text, codes, Result, ok, thrown, text_eq, pos,
  if◌then◌else◌,
}
use arbitrage_engine.Core.{Exchange}
use arbitrage_engine.Strings.{to_upper}
use arbitrage_engine.Config.{Config, ExchangeSettings, default_exchange, default_market_data}
use arbitrage_engine.Config.Load.{
  Yaml, Defaults, read_exchange, check_exchange, parse_exchange_settings, read_symbols,
  load_symbols, load_log_level, load_market_data, load_exchanges, load_arbitrage, load_fees,
  load_config,
}
use arbitrage_engine.Config.Sound.{IsLoaded, load_config-IsLoaded, plan-load_config}
use arbitrage_engine.Planner.{Group, plan}
use arbitrage_engine.Planner.Laws.{IsPlan}

pub data Node : Type 0 where
  undefined : Node
  scalar : Text → Node
  sequence : List Text → Node
  -- the document, its exchanges, one exchange
  document exchanges exchange : Node

abbrev pub scalars : List Text → List Node
scalars [] = []
scalars (t ∷ ts) = scalar t ∷ scalars ts

unfoldable pub child_of : Node → Text → Result Node
child_of document key =
    if text_eq key (codes "symbols")
    then ok (sequence (codes "btcusdt" ∷ []))
    else if text_eq key (codes "exchanges")
    then ok exchanges
    else ok undefined
child_of exchanges key = if text_eq key (codes "binance") then ok exchange else ok undefined
child_of exchange key =
    if text_eq key (codes "enabled")
    then ok (scalar (codes "true"))
    else if text_eq key (codes "ws_base_url")
    then ok (scalar (codes "wss://h"))
    else ok undefined
child_of _ key = thrown (codes "invalid node")

abbrev pub defined : Node → Bool
defined undefined = false
defined _ = true

abbrev pub is_sequence_node : Node → Bool
is_sequence_node (sequence ts) = true
is_sequence_node _ = false

abbrev pub elements_of : Node → List Node
elements_of (sequence ts) = scalars ts
elements_of _ = []

abbrev pub text_of : Node → Result Text
text_of (scalar t) = ok t
text_of _ = thrown (codes "bad conversion")

abbrev pub scalar_or : Node → Text → Text
scalar_or (scalar t) fallback = t
scalar_or _ fallback = fallback

unfoldable pub boolean_or : Node → Bool → Bool
boolean_or (scalar t) fallback = text_eq t (codes "true")
boolean_or _ fallback = fallback

abbrev pub yaml : Yaml Node ℕ
yaml = record {
  load_file = λ path. ok document;
  child = child_of;
  is_defined = defined;
  is_sequence = is_sequence_node;
  elements = elements_of;
  text = text_of;
  bool_or = boolean_or;
  text_or = scalar_or;
  size_or = λ n fallback. fallback;
  int_or = λ n fallback. fallback;
  double_or = λ n fallback. fallback;
}

abbrev pub defaults : Defaults ℕ
defaults = record { min_notional_usdt = 20; max_notional_usdt = 1000; taker_bps = 10 }

abbrev pub binance_settings : ExchangeSettings
binance_settings = record {
  enabled = true;
  ws_base_url = codes "wss://h";
  rest_base_url = [];
  max_streams_per_connection = 1;
}

abbrev pub config : Config ℕ
config = record {
  log_level = codes "info";
  market_data = default_market_data;
  symbols = codes "BTCUSDT" ∷ [];
  binance = binance_settings;
  mexc = default_exchange;
  arbitrage = record {
    min_net_spread_bps = pos 10;
    max_book_age_ms = pos 500;
    min_notional_usdt = 20;
    max_notional_usdt = 1000;
  };
  binance_fees = record { taker_bps = 10 };
  mexc_fees = record { taker_bps = 10 };
}

pub loaded : load_config yaml defaults (codes "config.yaml") ≡ ok config
unfolding load_config load_log_level load_market_data load_symbols read_symbols load_exchanges
    parse_exchange_settings read_exchange check_exchange load_arbitrage load_fees child_of
    boolean_or text_eq to_upper
loaded = refl

load_config-IsLoaded_example : IsLoaded config
load_config-IsLoaded_example =
    load_config-IsLoaded yaml defaults (codes "config.yaml") config loaded

plan-load_config_example :
    (gs : List Group) × ((plan Exchange.binance config.symbols 1 ≡ ok gs)
      × IsPlan Exchange.binance 1 0 config.symbols gs)
plan-load_config_example = plan-load_config yaml defaults (codes "config.yaml") config loaded refl
