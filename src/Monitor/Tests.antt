-- ===== src/Monitor/Tests.antt =====
-- The MEXC mode on two messages of which one does not parse.
use arbitrage_engine.Base.{
  ℕ, ℤ, ◌≡◌, refl, none, some, List, [], ◌∷◌, ◌++◌, map, arith, codes, Text, Result, text_eq, pos,
  ok, thrown,
}
use arbitrage_engine.Core.{Exchange}
use arbitrage_engine.Strings.{find, starts_with}
use arbitrage_engine.Planner.{Group}
use arbitrage_engine.Endpoint.{
  Endpoint, make_ws_endpoint, make_endpoint, host_port_of, host_of, port_of, target_of, endpoint_of,
}
use arbitrage_engine.Client.{Outcome, write_all}
use arbitrage_engine.Client.Tests.{open_socket}
use arbitrage_engine.Parser.Mexc.{Proto}
use arbitrage_engine.Scan.Tests.{config}
use arbitrage_engine.Monitor.{Counts, run_mexc_live}
use arbitrage_engine.Monitor.Laws.{IsCounted, run_mexc_live-IsCounted}

-- Every message is a wrapper with one bid that is no number.
abbrev proto : Proto ℕ
proto = record {
  parse_from_array = λ t. some (record {
    symbol = codes "BTCUSDT";
    publicaggredepths = some (record {
      bids = record { price = codes "x"; quantity = codes "1" } ∷ [];
      asks = [];
      fromversion = codes "1";
      toversion = codes "2";
    });
    sendtime = none;
  });
  stod = λ t. thrown (codes "stod");
  stoull = λ t. ok 1;
}

abbrev clock : ℕ → ℤ × ℤ
clock n = (pos n, pos n)

abbrev dump : List Text → Result Text
dump ts = ok (codes "subscribe")

abbrev group : Group
group = record {
  exchange = Exchange.mexc;
  connection_index = 0;
  symbols = codes "BTCUSDT" ∷ [];
  streams = codes "stream" ∷ [];
  websocket_target = [];
}

abbrev place : Endpoint
place = record {
  scheme = codes "wss";
  host = codes "w.m";
  port = codes "443";
  target = codes "/ws";
}

made : make_ws_endpoint config.mexc.ws_base_url (codes "/ws") ≡ ok place
unfolding make_ws_endpoint make_endpoint find starts_with host_port_of host_of port_of target_of
    endpoint_of text_eq
made = refl

written : write_all open_socket (codes "subscribe" ∷ []) ≡ ok tt
unfolding write_all
written = refl

abbrev messages : List Text
messages = codes "a" ∷ codes "b" ∷ codes "c" ∷ []

run_mexc_live-IsCounted_example :
    (s : ℕ × Counts) × ((run_mexc_live proto clock open_socket dump config
          (group ∷ [])
          2
          (map ok messages ++ [])
        ≡ ok (some (s, Outcome.returned)))
      × IsCounted 2 s)
run_mexc_live-IsCounted_example =
    run_mexc_live-IsCounted proto clock open_socket dump config group [] 2 messages [] place
      (codes "subscribe") made refl refl written (ground arith) (ground arith) (ground arith)
