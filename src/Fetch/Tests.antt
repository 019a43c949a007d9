-- ===== src/Fetch/Tests.antt =====
-- A snapshot of a network that answers every request alike.
use arbitrage_engine.Base.{ℕ, ◌≡◌, refl, [], ◌∷◌, codes, text_eq, pos, ok}
use arbitrage_engine.Core.{Exchange, BookSnapshot}
use arbitrage_engine.Strings.{find, starts_with, int_text, digits, decimal}
use arbitrage_engine.Endpoint.{
  make_https_endpoint, make_endpoint, host_port_of, host_of, port_of, target_of, endpoint_of,
}
use arbitrage_engine.Client.{Send, get}
use arbitrage_engine.Double.{nat_double}
use arbitrage_engine.Parser.{
  parse_double_from_json_string, parse_level, parse_elements, parse_levels,
}
use arbitrage_engine.Parser.Snapshot.{read_snapshot, check_snapshot, parse_snapshot, parse_mexc}
use arbitrage_engine.Parser.Tests.{tree}
use arbitrage_engine.Scan.Tests.{config}
use arbitrage_engine.Fetch.{fetch_snapshot, depth_target}
use arbitrage_engine.Fetch.Laws.{IsFetched, fetch_snapshot-IsFetched}

abbrev send : Send
send request = ok (record { status = 200; body = codes "snapshot" })

abbrev answer : BookSnapshot ℕ
answer = record {
  exchange = Exchange.mexc;
  symbol = codes "BTCUSDT";
  bids = [];
  asks = record { price = 10; quantity = 1 } ∷ [];
  last_update_id = 4;
  local_receive_time_ms = pos 60;
}

fetched : fetch_snapshot tree send Exchange.mexc (pos 60) config (codes "BTCUSDT") ≡ ok answer
unfolding fetch_snapshot depth_target int_text digits decimal make_https_endpoint make_endpoint find
    starts_with host_port_of host_of port_of target_of endpoint_of get parse_mexc parse_snapshot
    check_snapshot read_snapshot parse_levels parse_elements parse_level
    parse_double_from_json_string text_eq
fetched = refl

fetch_snapshot-IsFetched_example :
    IsFetched tree send Exchange.mexc (pos 60) config (codes "BTCUSDT") answer
fetch_snapshot-IsFetched_example =
    fetch_snapshot-IsFetched tree send Exchange.mexc (pos 60) config (codes "BTCUSDT") answer
      fetched
