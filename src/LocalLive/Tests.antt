-- ===== src/LocalLive/Tests.antt =====
-- A local book of Binance that is synchronised while its stream runs.
use arbitrage_engine.Base.{
  ℕ, zero, suc, ◌≡◌, refl, false, none, some, List, [], ◌∷◌, map, arith, codes, Text, text_eq, pos,
  ok, thrown,
}
use arbitrage_engine.Double.{nat_double}
use arbitrage_engine.Core.{Exchange, BookUpdate, BookSnapshot}
use arbitrage_engine.Strings.{to_upper, to_lower, find, starts_with}
use arbitrage_engine.Scan.Tests.{config}
use arbitrage_engine.Planner.{build_stream_name, build_binance_combined_target, append_streams}
use arbitrage_engine.Endpoint.{
  Endpoint, make_ws_endpoint, make_endpoint, host_port_of, host_of, port_of, target_of, endpoint_of,
}
use arbitrage_engine.OrderBook.Replay.{apply_updates}
use arbitrage_engine.LocalBook.Replay.{fresh}
use arbitrage_engine.LocalBook.Stream.{loaded_book}
use arbitrage_engine.LocalLive.Failure.{run_local_live_terminates}
use arbitrage_engine.LocalLive.{
  new_run, run_local_live, terminated, stream_endpoint, Attempt, synced, sync_local_live,
}
use arbitrage_engine.LocalLive.Outcome.{EndsWell, sync_local_live-EndsWell}
use arbitrage_engine.LocalLive.Success.{quiet, sync_local_live_succeeds}

abbrev symbol : Text
symbol = codes "BTCUSDT"

-- An update of one bid.
abbrev bid : ℕ → ℕ → ℕ → ℕ → BookUpdate ℕ
bid first final p q = record {
  exchange = Exchange.binance;
  symbol = symbol;
  bids = record { price = p; quantity = q } ∷ [];
  asks = [];
  first_update_id = first;
  final_update_id = final;
  exchange_event_time_ms = pos 0;
  local_receive_time_ms = pos 0;
}

abbrev shot : BookSnapshot ℕ
shot = record {
  exchange = Exchange.binance;
  symbol = symbol;
  bids = record { price = 90; quantity = 3 } ∷ [];
  asks = record { price = 99; quantity = 1 } ∷ [];
  last_update_id = 9;
  local_receive_time_ms = pos 0;
}

abbrev more : List (BookUpdate ℕ)
more = bid 8 11 91 1 ∷ bid 12 12 92 4 ∷ []

-- The first attempt succeeds; the others are not reached.
abbrev inputs : ℕ → Attempt ℕ
inputs n = record {
  polls =
      quiet Exchange.binance 2
        (record { messages = map some (bid 5 7 90 1 ∷ []); finished = false } ∷ []);
  fetching = map some more;
  snapshot = ok shot;
  ending = [];
}

-- The second attempt's request throws, after a first one that sees no message.
abbrev broken : ℕ → Attempt ℕ
broken n = elim n [
  | zero ↦ inputs 0
  | suc m ↦ elim m [
    | zero ↦ record {
      polls = quiet Exchange.binance 3 [];
      fetching = [];
      snapshot = ok shot;
      ending = none ∷ [];
    }
    | suc k ↦ record (inputs 0) { snapshot = thrown (codes "timeout") }
  ]
]

sync_local_live-EndsWell_example :
    EndsWell Exchange.binance broken 3 1
      (new_run Exchange.binance (codes "btcusdt"))
      (sync_local_live Exchange.binance (codes "btcusdt") broken)
sync_local_live-EndsWell_example =
    sync_local_live-EndsWell Exchange.binance (codes "btcusdt") broken

sync_local_live_succeeds_example :
    let out = sync_local_live Exchange.binance (codes "btcusdt") inputs in
    (out.1 ≡ synced)
    × (out.0.manager.book
        ≡ apply_updates (loaded_book Exchange.binance shot) (fresh 9 (bid 5 7 90 1 ∷ more)))
unfolding text_eq to_upper
sync_local_live_succeeds_example =
    sync_local_live_succeeds Exchange.binance (codes "btcusdt") 2 4 (bid 5 7 90 1) [] more false []
      shot inputs refl refl refl (ground arith) refl (ground arith) (ground arith) (ground arith)
      (ground arith)

-- The first request fails.
abbrev failing : ℕ → Attempt ℕ
failing n = record (inputs 1) { snapshot = thrown (codes "timeout") }

abbrev place : Endpoint
place = record {
  scheme = codes "wss";
  host = codes "w.b";
  port = codes "443";
  target = codes "/stream?streams=btcusdt@depth@100ms";
}

found : stream_endpoint Exchange.binance config (to_upper (codes "btcusdt")) ≡ ok place
unfolding make_ws_endpoint make_endpoint find starts_with host_port_of host_of port_of target_of
    endpoint_of text_eq to_upper to_lower build_binance_combined_target build_stream_name
    append_streams
found = refl

run_local_live_terminates_example :
    run_local_live Exchange.binance config (codes "btcusdt") failing [] none
    ≡ terminated (codes "timeout")
unfolding text_eq to_upper
run_local_live_terminates_example =
    run_local_live_terminates Exchange.binance config (codes "btcusdt") place 2 (bid 5 7 90 1) []
      false [] (codes "timeout") failing [] none found refl refl (ground arith) (ground arith)
