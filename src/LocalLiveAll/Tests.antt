-- ===== src/LocalLiveAll/Tests.antt =====
-- Two symbols of MEXC, where the second one's stream gives nothing in time.
use arbitrage_engine.Base.{
  ℕ, zero, suc, ◌≡◌, refl, true, false, none, some, [], ◌∷◌, arith, codes, text_eq, pos, ok, thrown,
}
use arbitrage_engine.Double.{nat_double}
use arbitrage_engine.Core.{Exchange, BookUpdate, BookSnapshot}
use arbitrage_engine.Strings.{find, starts_with}
use arbitrage_engine.Planner.{Group}
use arbitrage_engine.Endpoint.{
  Endpoint, make_ws_endpoint, make_endpoint, host_port_of, host_of, port_of, target_of, endpoint_of,
}
use arbitrage_engine.Scan.Tests.{config}
use arbitrage_engine.LocalLiveAll.{Inputs, Attempt, Report, endpoints, run_local_live_all}
use arbitrage_engine.LocalLiveAll.Counters.{
  IsBalanced, AttemptOwn, InputsOwn, run_local_live_all-IsBalanced,
}
use arbitrage_engine.LocalLiveAll.Accounts.{IsAccounted, run_local_live_all-IsAccounted}

abbrev bid : BookUpdate ℕ
bid = record {
  exchange = Exchange.mexc;
  symbol = codes "BTCUSDT";
  bids = record { price = 9; quantity = 2 } ∷ [];
  asks = [];
  first_update_id = 3;
  final_update_id = 5;
  exchange_event_time_ms = pos 0;
  local_receive_time_ms = pos 0;
}

abbrev shot : BookSnapshot ℕ
shot = record {
  exchange = Exchange.mexc;
  symbol = codes "BTCUSDT";
  bids = [];
  asks = record { price = 10; quantity = 1 } ∷ [];
  last_update_id = 4;
  local_receive_time_ms = pos 0;
}

-- The first request fails, and the second one gives the snapshot.
abbrev attempt : ℕ → Attempt ℕ
attempt n = elim n [
  | zero ↦ record { fetching = []; snapshot = ok shot; ending = [] }
  | suc m ↦ elim m [
    | zero ↦ record { fetching = none ∷ []; snapshot = thrown (codes "timeout"); ending = [] }
    | suc k ↦ record { fetching = []; snapshot = ok shot; ending = [] }
  ]
]

abbrev inputs : ℕ → Inputs ℕ
inputs i = elim i [
  | zero ↦ record {
    polls = record { messages = some bid ∷ []; finished = false } ∷ [];
    attempt = attempt;
  }
  | suc j ↦ record { polls = record { messages = []; finished = true } ∷ []; attempt = attempt }
]

abbrev group : Group
group = record {
  exchange = Exchange.mexc;
  connection_index = 0;
  symbols = codes "BTCUSDT" ∷ codes "ETHUSDT" ∷ [];
  streams = [];
  websocket_target = [];
}

abbrev place : Endpoint
place = record {
  scheme = codes "wss";
  host = codes "w.m";
  port = codes "443";
  target = codes "/ws";
}

started : endpoints Exchange.mexc config (group ∷ []) ≡ ok (place ∷ [])
unfolding endpoints make_ws_endpoint make_endpoint find starts_with host_port_of host_of port_of
    target_of endpoint_of text_eq
started = refl

run_local_live_all-IsAccounted_example :
    (r : Report ℕ) × ((run_local_live_all Exchange.mexc config (group ∷ []) inputs [] none
        ≡ ok (some r))
      × IsAccounted Exchange.mexc config.symbols r)
run_local_live_all-IsAccounted_example =
    run_local_live_all-IsAccounted Exchange.mexc config group [] inputs [] (place ∷ []) started
      (ground arith)

attempts_own : (k : ℕ) → AttemptOwn Exchange.mexc (attempt k)
attempts_own zero = (tt, tt)
attempts_own (suc zero) = ((tt, tt), tt)
attempts_own (suc (suc k)) = (tt, tt)

inputs_own : (k : ℕ) → InputsOwn Exchange.mexc (inputs k)
inputs_own zero = (((refl, tt), tt), attempts_own)
inputs_own (suc k) = ((tt, tt), attempts_own)

run_local_live_all-IsBalanced_example :
    (r : Report ℕ) × ((run_local_live_all Exchange.mexc config
          (group ∷ [])
          inputs
          (some bid ∷ [])
          none
        ≡ ok (some r))
      × IsBalanced r.books)
run_local_live_all-IsBalanced_example =
    run_local_live_all-IsBalanced Exchange.mexc config group [] inputs (some bid ∷ []) (place ∷ [])
      started inputs_own (refl, tt)
