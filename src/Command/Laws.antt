-- ===== src/Command/Laws.antt =====
-- What the command line and the configuration make `main` run.
use arbitrage_engine.Base.{
  ℕ, ◌≡◌, refl, ◌⊎◌, inl, inr, true, false, List, [], Text, Result, ok, Bool-cases,
}
use arbitrage_engine.Core.{Exchange}
use arbitrage_engine.Config.{Config, ExchangeSettings}
use arbitrage_engine.Config.Load.{Yaml, Defaults, load_config}
use arbitrage_engine.Config.Sound.{IsUsable, load_config-IsLoaded}
use arbitrage_engine.Planner.{Group}
use arbitrage_engine.Planner.Laws.{IsPlan, plan-IsPlan}
use arbitrage_engine.Command.{
  get_max_messages_arg, get_config_path, choose_mode, plan_enabled, start,
}

-- The groups of an exchange serve all the symbols if it is enabled, and there are none if it is not.
abbrev pub IsPlanned : Exchange → ExchangeSettings → List Text → List Group → Type 0
IsPlanned e s symbols gs =
    ((s.enabled ≡ true) × IsPlan e s.max_streams_per_connection 0 symbols gs)
    ⊎ ((s.enabled ≡ false) × (gs ≡ []))

plan_enabled_total :
    (e : Exchange) (s : ExchangeSettings) (symbols : List Text)
    → IsUsable s
    → (gs : List Group) × ((plan_enabled e s symbols ≡ ok gs) × IsPlanned e s symbols gs)
unfolding plan_enabled
plan_enabled_total e s symbols h = elim (Bool-cases s.enabled) [
  | inl on ↦
      let (gs, (made, is_plan)) = plan-IsPlan e symbols s.max_streams_per_connection (h on).1 in
      (gs, (rw on made, inl (on, is_plan)))
  | inr off ↦ ([], (rw off refl, inr (off, refl)))
]

module _ {N W : Type 0} (y : Yaml N W) (defaults : Defaults W) (stoull : Text → Result ℕ) where
  -- Where the message limit reads as a number and the configuration loads, nothing more is thrown before
  -- the mode runs: the mode is chosen with that limit and with a plan of each exchange, which covers the
  -- symbols of the configuration if the exchange is enabled and is empty if it is not.
  pub start_total :
      (args : List Text) (max : ℕ) (c : Config W)
      → get_max_messages_arg stoull args ≡ ok max
      → load_config y defaults (get_config_path args) ≡ ok c
      → (binance : List Group) × ((mexc : List Group) × ((start stoull (load_config y defaults) args
              ≡ ok (choose_mode args binance mexc max))
            × (IsPlanned Exchange.binance c.binance c.symbols binance
                × IsPlanned Exchange.mexc c.mexc c.symbols mexc)))
  unfolding start
  start_total args max c m l =
      let loaded = load_config-IsLoaded y defaults (get_config_path args) c l in
      let (binance, (b, hb)) =
        plan_enabled_total Exchange.binance c.binance c.symbols loaded.binance_usable in
      let (mexc, (k, hm)) = plan_enabled_total Exchange.mexc c.mexc c.symbols loaded.mexc_usable in
      (binance, (mexc, (rw (m, l, b, k) refl, (hb, hm))))
