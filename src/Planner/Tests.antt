-- ===== src/Planner/Tests.antt =====
-- The planner on a concrete list of symbols.
use arbitrage_engine.Base.{◌≡◌, refl, List, [], ◌∷◌, ◌++◌, arith, Text, codes, ok}
use arbitrage_engine.Core.{Exchange}
use arbitrage_engine.Strings.{to_upper}
use arbitrage_engine.Planner.{
  Group, build_stream_name, append_streams, build_binance_combined_target, plan,
}
use arbitrage_engine.Planner.Laws.{IsPlan, plan-IsPlan}
use arbitrage_engine.Planner.Target.{cut, cut-build_binance_combined_target}

abbrev symbols : List Text
symbols = codes "BTCUSDT" ∷ codes "ETHUSDT" ∷ codes "SOLUSDT" ∷ []

target :
    build_binance_combined_target (codes "a@depth" ∷ codes "b" ∷ [])
    ≡ ok (codes "/stream?streams=a@depth/b")
unfolding build_binance_combined_target append_streams
target = refl

stream :
    build_stream_name Exchange.mexc (codes "btc")
    ≡ codes "spot@public.aggre.depth.v3.api.pb@100ms@BTC"
unfolding build_stream_name to_upper
stream = refl

plan-IsPlan_example :
    (gs : List Group) × ((plan Exchange.binance symbols 2 ≡ ok gs)
      × IsPlan Exchange.binance 2 0 symbols gs)
plan-IsPlan_example = plan-IsPlan Exchange.binance symbols 2 (omega arith)

cut-build_binance_combined_target_example :
    (t : Text) × ((build_binance_combined_target (codes "ab" ∷ codes "c" ∷ [])
        ≡ ok (codes "/stream?streams=" ++ t))
      × (cut t ≡ codes "ab" ∷ codes "c" ∷ []))
cut-build_binance_combined_target_example =
    cut-build_binance_combined_target (codes "ab") (codes "c" ∷ []) (ground arith)
