-- ===== src/Planner.antt =====
-- src/planner/SubscriptionPlanner.{hpp,cpp}: `class SubscriptionPlanner`.
pub mod Laws
pub mod Target
mod Tests
use arbitrage_engine.Base.{
  ℕ, zero, suc, Bool, true, false, ◌==◌, if◌then◌else◌, List, [], ◌∷◌, ◌++◌, map, length, take,
  drop, inc64, Text, codes, Result, ok, thrown, ◌>>=◌, ◌>>◌,
}
use arbitrage_engine.Core.{Exchange}
use arbitrage_engine.Strings.{to_lower, to_upper}

-- `SubscriptionGroup`
pub record Group : Type 0 where
  pub exchange : Exchange
  pub connection_index : ℕ
  pub symbols : List Text
  pub streams : List Text
  pub websocket_target : Text

unfoldable pub build_stream_name : Exchange → Text → Text
build_stream_name Exchange.binance symbol = to_lower symbol ++ codes "@depth@100ms"
build_stream_name Exchange.mexc symbol =
    codes "spot@public.aggre.depth.v3.api.pb@100ms@" ++ to_upper symbol

-- The loop of `build_binance_combined_target` from its second turn on.
unfoldable pub append_streams : List Text → Text
append_streams [] = []
append_streams (s ∷ ss) = codes "/" ++ (s ++ append_streams ss)

unfoldable pub build_binance_combined_target : List Text → Result Text
build_binance_combined_target [] =
    thrown (codes "Binance combined stream target requires at least one stream")
build_binance_combined_target (s ∷ ss) = ok (codes "/stream?streams=" ++ (s ++ append_streams ss))

unfoldable pub target_of : Exchange → List Text → Result Text
target_of Exchange.binance streams = build_binance_combined_target streams
target_of Exchange.mexc streams = ok []

-- One turn of the loop of `plan`: the group of the given symbols.
unfoldable pub make_group : Exchange → ℕ → List Text → Result Group
make_group exchange index symbols = do
  let streams = map (build_stream_name exchange) symbols
  target ← target_of exchange streams
  ok (record {
    exchange = exchange;
    connection_index = index;
    symbols = symbols;
    streams = streams;
    websocket_target = target;
  })

-- The loop of `plan` on fuel, for the symbols from `i` on.
unfoldable pub plan_from : ℕ → Exchange → ℕ → ℕ → List Text → Result (List Group)
plan_from fuel exchange max index [] = ok []
plan_from zero exchange max index (s ∷ ss) = thrown (codes "out of fuel")
plan_from (suc fuel) exchange max index (s ∷ ss) = do
  g ← make_group exchange index (take max (s ∷ ss))
  gs ← plan_from fuel exchange max (inc64 index) (drop max (s ∷ ss))
  ok (g ∷ gs)

-- A turn takes one symbol at least, so their number is enough fuel.
unfoldable pub plan : Exchange → List Text → ℕ → Result (List Group)
plan exchange symbols max =
    if max == 0
    then thrown (codes "max_streams_per_connection must be greater than zero")
    else plan_from (length symbols) exchange max 0 symbols
