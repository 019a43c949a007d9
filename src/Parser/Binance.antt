-- ===== src/Parser/Binance.antt =====
-- src/exchanges/BinanceDepthParser.cpp: `BinanceDepthParser::parse`.
use arbitrage_engine.Base.{
  ℤ, Bool, false, not, if◌then◌else◌, Option, none, some, Text, codes, Result, ok, ◌>>=◌,
}
use arbitrage_engine.Core.{Exchange, BookUpdate}
use arbitrage_engine.Parser.{Json, parse_levels}

module _ {J W : Type 0} (j : Json J W) where
  -- The `data` of a combined stream, or the message itself.
  unfoldable pub data_of : J → Result J
  data_of root = if j.contains root (codes "data") then j.child root (codes "data") else ok root

  -- `!data->contains("e") || data->at("e") != "depthUpdate"`, where the second test has no key to miss
  unfoldable pub is_depth : J → Result Bool
  is_depth node =
      if not (j.contains node (codes "e"))
      then ok false
      else (do e ← j.child node (codes "e"); ok (j.equals e (codes "depthUpdate")))

  -- The fields, read in the order of the initialiser, at the given time.
  unfoldable pub read_update : ℤ → J → Result (BookUpdate W)
  read_update now node = do
    s ← j.child node (codes "s")
    symbol ← j.text s
    b ← j.child node (codes "b")
    bids ← parse_levels j b
    a ← j.child node (codes "a")
    asks ← parse_levels j a
    f ← j.child node (codes "U")
    first ← j.u64 f
    u ← j.child node (codes "u")
    final ← j.u64 u
    t ← j.child node (codes "E")
    event_time ← j.i64 t
    ok (record {
      exchange = Exchange.binance;
      symbol = symbol;
      bids = bids;
      asks = asks;
      first_update_id = first;
      final_update_id = final;
      exchange_event_time_ms = event_time;
      local_receive_time_ms = now;
    })

  -- `now` is what `now_ms` returns.
  unfoldable pub parse : ℤ → Text → Result (Option (BookUpdate W))
  parse now message = do
    root ← j.parse message
    node ← data_of root
    depth ← is_depth node
    if depth then (do u ← read_update now node; ok (some u)) else ok none
