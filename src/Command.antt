-- ===== src/Command.antt =====
-- src/main.cpp: the command line, and which mode `main` runs.
pub mod Laws
mod Tests
use arbitrage_engine.Base.{
  ℕ, Bool, true, false, not, ◌&&◌, Option, none, some, List, [], ◌∷◌, ◌++◌, if◌then◌else◌,
  has_value, Text, codes, text_eq, length, drop, Result, ok, thrown, ◌>>=◌, ◌>>◌,
}
use arbitrage_engine.Core.{Exchange}
use arbitrage_engine.Config.{Config, ExchangeSettings}
use arbitrage_engine.Planner.{Group, plan}
use arbitrage_engine.Strings.{starts_with}

-- The arguments are those after the program's name.
unfoldable pub has_arg : List Text → Text → Bool
has_arg [] value = false
has_arg (a ∷ args) value = let rest = has_arg args value in if text_eq a value then true else rest

unfoldable pub get_arg_value : List Text → Text → Option Text
get_arg_value [] prefix = none
get_arg_value (a ∷ args) prefix =
    let rest = get_arg_value args prefix in
    if starts_with prefix a then some (drop (length prefix) a) else rest

-- `stoull` is `std::stoull`, which throws on a text that is no number.
unfoldable pub get_max_messages_arg : (Text → Result ℕ) → List Text → Result ℕ
get_max_messages_arg stoull [] = ok 0
get_max_messages_arg stoull (a ∷ args) =
    let rest = get_max_messages_arg stoull args in
    if starts_with (codes "--max-messages=") a
    then stoull (drop (length (codes "--max-messages=")) a)
    else rest

unfoldable pub get_config_path : List Text → Text
get_config_path [] = codes "config/config.yaml"
get_config_path (a ∷ args) =
    let rest = get_config_path args in if not (starts_with (codes "--") a) then a else rest

-- The calls that `main` chooses between.
pub data Mode : Type 0 where
  binance_snapshot mexc_snapshot : Text → Mode
  snapshot_arbitrage_scan snapshot_top_spread_scan : Mode
  live_arbitrage_scan : List Group → List Group → ℕ → Mode
  binance_local_live mexc_local_live : Text → ℕ → Mode
  binance_local_live_all mexc_local_live_all : List Group → ℕ → Mode
  binance_live mexc_live : List Group → ℕ → Mode
  foundation_check : Mode

abbrev pub or_else {ℓ} : {A B : Type ℓ} → Option A → (A → B) → B → B
or_else none f b = b
or_else (some a) f b = f a

-- The chain of `if`s of `main`, for the groups of the two exchanges and the message limit.
unfoldable pub choose_mode : List Text → List Group → List Group → ℕ → Mode
choose_mode args binance mexc max =
    or_else (get_arg_value args (codes "--binance-snapshot=")) binance_snapshot (
      or_else (get_arg_value args (codes "--mexc-snapshot=")) mexc_snapshot (
        if has_arg args (codes "--scan-snapshots")
        then snapshot_arbitrage_scan
        else if has_arg args (codes "--scan-snapshots-top")
        then snapshot_top_spread_scan
        else if has_arg args (codes "--scan-live")
        then live_arbitrage_scan binance mexc max
        else or_else (get_arg_value args (codes "--binance-local-live="))
            (λ s. binance_local_live s max)
            (or_else (get_arg_value args (codes "--mexc-local-live=")) (λ s. mexc_local_live s max)
              (if has_arg args (codes "--binance-local-live-all")
                then binance_local_live_all binance max
                else if has_arg args (codes "--mexc-local-live-all")
                then mexc_local_live_all mexc max
                else if has_arg args (codes "--binance-live")
                then binance_live binance max
                else if has_arg args (codes "--mexc-live")
                then mexc_live mexc max
                else foundation_check))))

-- The groups of an exchange, none if it is disabled.
unfoldable pub plan_enabled : Exchange → ExchangeSettings → List Text → Result (List Group)
plan_enabled e s symbols = if s.enabled then plan e symbols s.max_streams_per_connection else ok []

-- `main` up to the call of the mode: the arguments, the configuration, the two plans. What is thrown
-- here is the fatal error that `main` prints before it returns 1, or, for the message limit, ends the
-- program.
unfoldable pub start :
    {W : Type 0} → (Text → Result ℕ) → (Text → Result (Config W)) → List Text → Result Mode
start stoull load args = do
  max ← get_max_messages_arg stoull args
  config ← load (get_config_path args)
  binance ← plan_enabled Exchange.binance config.binance config.symbols
  mexc ← plan_enabled Exchange.mexc config.mexc config.symbols
  ok (choose_mode args binance mexc max)
