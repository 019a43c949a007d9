-- ===== src/Command/Tests.antt =====
-- The command line on concrete arguments.
use arbitrage_engine.Base.{ℕ, ◌-◌, ◌≡◌, refl, List, [], ◌∷◌, Text, codes, text_eq, Result, ok}
use arbitrage_engine.Core.{Exchange}
use arbitrage_engine.Config.Load.{load_config}
use arbitrage_engine.Config.Tests.{yaml, defaults, config, loaded}
use arbitrage_engine.Planner.{Group}
use arbitrage_engine.Strings.{starts_with}
use arbitrage_engine.Command.{
  Mode, has_arg, get_arg_value, get_max_messages_arg, get_config_path, choose_mode, start,
}
use arbitrage_engine.Command.Laws.{IsPlanned, start_total}

abbrev args : List Text
args = codes "--scan-live" ∷ codes "config.yaml" ∷ codes "--max-messages=7" ∷ []

-- `std::stoull` on one digit.
abbrev digit : Text → Result ℕ
digit (d ∷ []) = ok (d - 48)
digit _ = ok 0

path : get_config_path args ≡ codes "config.yaml"
unfolding get_config_path starts_with
path = refl

limit : get_max_messages_arg digit args ≡ ok 7
unfolding get_max_messages_arg starts_with
limit = refl

mode : choose_mode args [] [] 7 ≡ Mode.live_arbitrage_scan [] [] 7
unfolding choose_mode has_arg get_arg_value starts_with text_eq
mode = refl

start_total_example :
    (binance : List Group) × ((mexc : List Group) × ((start digit (load_config yaml defaults) args
          ≡ ok (choose_mode args binance mexc 7))
        × (IsPlanned Exchange.binance config.binance config.symbols binance
            × IsPlanned Exchange.mexc config.mexc config.symbols mexc)))
unfolding get_config_path starts_with
start_total_example = start_total yaml defaults digit args 7 config limit loaded
