-- ===== src/Parser/Snapshot.antt =====
-- src/exchanges/BinanceSnapshotParser.cpp and MexcSnapshotParser.cpp: the two `parse` functions differ in
-- the exchange and in the texts of their errors, which are arguments here.
use arbitrage_engine.Base.{ℤ, not, ◌||◌, if◌then◌else◌, Text, codes, Result, ok, thrown, ◌>>=◌}
use arbitrage_engine.Core.{Exchange, BookSnapshot}
use arbitrage_engine.Parser.{Json, parse_levels}

pub record Missing : Type 0 where
  pub id : Text
  pub levels : Text

abbrev pub binance_missing : Missing
binance_missing = record {
  id = codes "Binance snapshot missing lastUpdateId";
  levels = codes "Binance snapshot missing bids/asks";
}

abbrev pub mexc_missing : Missing
mexc_missing = record {
  id = codes "MEXC snapshot missing lastUpdateId";
  levels = codes "MEXC snapshot missing bids/asks";
}

module _ {J W : Type 0} (j : Json J W) where
  unfoldable pub read_snapshot : Exchange → ℤ → Text → J → Result (BookSnapshot W)
  read_snapshot e now symbol root = do
    b ← j.child root (codes "bids")
    bids ← parse_levels j b
    a ← j.child root (codes "asks")
    asks ← parse_levels j a
    i ← j.child root (codes "lastUpdateId")
    last ← j.u64 i
    ok (record {
      exchange = e;
      symbol = symbol;
      bids = bids;
      asks = asks;
      last_update_id = last;
      local_receive_time_ms = now;
    })

  -- The checks before the fields are read.
  unfoldable pub check_snapshot : Exchange → Missing → ℤ → Text → J → Result (BookSnapshot W)
  check_snapshot e missing now symbol root =
      if not (j.contains root (codes "lastUpdateId"))
      then thrown missing.id
      else if not (j.contains root (codes "bids")) || not (j.contains root (codes "asks"))
      then thrown missing.levels
      else read_snapshot e now symbol root

  unfoldable pub parse_snapshot : Exchange → Missing → ℤ → Text → Text → Result (BookSnapshot W)
  parse_snapshot e missing now body symbol = do
    root ← j.parse body
    check_snapshot e missing now symbol root

  unfoldable pub parse_binance : ℤ → Text → Text → Result (BookSnapshot W)
  unfolding parse_snapshot
  parse_binance = parse_snapshot Exchange.binance binance_missing

  unfoldable pub parse_mexc : ℤ → Text → Text → Result (BookSnapshot W)
  unfolding parse_snapshot
  parse_mexc = parse_snapshot Exchange.mexc mexc_missing
