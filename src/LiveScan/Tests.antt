-- ===== src/LiveScan/Tests.antt =====
-- A live scan where no symbol is synchronised.
use arbitrage_engine.Base.{
  ℕ, ◌≤◌, ◌≡◌, refl, true, none, [], ◌∷◌, arith, codes, text_eq, ok, thrown,
}
use arbitrage_engine.Double.{nat_double, nat-IsOrdered}
use arbitrage_engine.Core.{Exchange}
use arbitrage_engine.Strings.{find, starts_with}
use arbitrage_engine.Planner.{Group}
use arbitrage_engine.Endpoint.{
  Endpoint, make_ws_endpoint, make_endpoint, host_port_of, host_of, port_of, target_of, endpoint_of,
}
use arbitrage_engine.Spread.Laws.{configured}
use arbitrage_engine.Engine.Scan.{enough}
use arbitrage_engine.Engine.Tests.{nat-HasRank}
use arbitrage_engine.Scan.Tests.{config}
use arbitrage_engine.Live.Invariant.{mexc_message, binance_message}
use arbitrage_engine.Live.Sync.{Attempt}
use arbitrage_engine.LocalLiveAll.{endpoints}
use arbitrage_engine.LiveScan.{Turn, Inputs, Report, stopped, run_live_arbitrage_scan}
use arbitrage_engine.LiveScan.Laws.{IsReported, run_live_arbitrage_scan-IsReported}

abbrev attempt : Attempt ℕ
attempt = record {
  polls = record { events = binance_message none ∷ []; finished = true } ∷ [];
  fetching = [];
  fetch = λ n. thrown (codes "timeout");
  ending = [];
}

abbrev busy : Turn ℕ
busy = record { before = mexc_message none ∷ []; finished = 1; slept = binance_message none ∷ [] }

abbrev all_finished : Turn ℕ
all_finished = record { before = mexc_message none ∷ []; finished = 2; slept = [] }

-- Two scans, with messages between them.
abbrev inputs : Inputs ℕ
inputs = record {
  binance = λ t n. attempt;
  mexc = λ t n. attempt;
  turns = busy ∷ busy ∷ all_finished ∷ [];
  ws_exception = none;
}

abbrev group : Exchange → Group
group e = record {
  exchange = e;
  connection_index = 0;
  symbols = codes "BTCUSDT" ∷ [];
  streams = [];
  websocket_target = codes "/stream";
}

abbrev binance_place : Endpoint
binance_place = record {
  scheme = codes "wss";
  host = codes "w.b";
  port = codes "443";
  target = codes "/stream";
}

abbrev mexc_place : Endpoint
mexc_place = record {
  scheme = codes "wss";
  host = codes "w.m";
  port = codes "443";
  target = codes "/ws";
}

binance : endpoints Exchange.binance config (group Exchange.binance ∷ []) ≡ ok (binance_place ∷ [])
unfolding endpoints make_ws_endpoint make_endpoint find starts_with host_port_of host_of port_of
    target_of endpoint_of text_eq
binance = refl

mexc : endpoints Exchange.mexc config (group Exchange.mexc ∷ []) ≡ ok (mexc_place ∷ [])
unfolding endpoints make_ws_endpoint make_endpoint find starts_with host_port_of host_of port_of
    target_of endpoint_of text_eq
mexc = refl

enough_fuel : enough nat-HasRank (configured config) ≤ 2000
enough_fuel = ground arith

run_live_arbitrage_scan-IsReported_example :
    (r : Report ℕ) × ((run_live_arbitrage_scan 2000 config
          (group Exchange.binance ∷ [])
          (group Exchange.mexc ∷ [])
          inputs
        ≡ stopped r)
      × IsReported config (busy ∷ busy ∷ []) all_finished r)
run_live_arbitrage_scan-IsReported_example =
    run_live_arbitrage_scan-IsReported config nat-IsOrdered nat-HasRank 2000 enough_fuel
      (group Exchange.binance) (group Exchange.mexc) [] [] inputs (binance_place ∷ [])
      (mexc_place ∷ []) (busy ∷ busy ∷ []) [] all_finished binance mexc refl (ground arith)
      (ground arith) refl (ground arith)
