-- ===== src/SnapshotScan/Tests.antt =====
-- Snapshot scans over a network that answers at the second attempt.
use arbitrage_engine.Base.{ℕ, zero, suc, ◌≡◌, some, [], ◌∷◌, arith, codes, ok, thrown, pos}
use arbitrage_engine.Double.{nat_double, nat-IsOrdered}
use arbitrage_engine.Core.{Exchange, BookSnapshot}
use arbitrage_engine.MarketData.{get_book}
use arbitrage_engine.Engine.Tests.{nat-HasRank, symbol}
use arbitrage_engine.Scan.Tests.{config}
use arbitrage_engine.SnapshotScan.{
  Fetches, ArbitrageReport, nothing_loaded, load_books, run_snapshot_arbitrage_scan,
  run_snapshot_top_spread_scan,
}
use arbitrage_engine.SnapshotScan.Books.{latest, get_book-load_books}
use arbitrage_engine.SnapshotScan.Reports.{
  loaded, IsArbitrageReport, IsSpreadReport, run_snapshot_arbitrage_scan-IsReport,
  run_snapshot_top_spread_scan-IsSpreadReport,
}

abbrev answer : Exchange → BookSnapshot ℕ
answer e = record {
  exchange = e;
  symbol = symbol;
  bids = record { price = 9; quantity = 5 } ∷ [];
  asks = record { price = 10; quantity = 5 } ∷ [];
  last_update_id = 7;
  local_receive_time_ms = pos 0;
}

abbrev fetches : Fetches ℕ
fetches i e attempt = elim attempt [
  | zero ↦ thrown []
  | suc n ↦ elim n [ zero ↦ thrown (codes "timeout") | suc m ↦ ok (answer e) ]
]

get_book-load_books_example :
    get_book (load_books fetches 0 config.symbols nothing_loaded).store Exchange.mexc symbol
    ≡ latest fetches 0 config.symbols Exchange.mexc symbol
        (get_book nothing_loaded.store Exchange.mexc symbol)
get_book-load_books_example =
    get_book-load_books fetches 0 config.symbols nothing_loaded Exchange.mexc symbol

run_snapshot_arbitrage_scan-IsReport_example :
    (r : ArbitrageReport ℕ) × ((run_snapshot_arbitrage_scan 2000 config fetches ≡ some r)
      × ((r.loaded ≡ loaded config fetches nat-IsOrdered)
          × IsArbitrageReport config fetches nat-IsOrdered r))
run_snapshot_arbitrage_scan-IsReport_example =
    run_snapshot_arbitrage_scan-IsReport config fetches nat-IsOrdered nat-HasRank 2000
      (ground arith)

run_snapshot_top_spread_scan-IsSpreadReport_example :
    IsSpreadReport config fetches nat-IsOrdered (run_snapshot_top_spread_scan config fetches)
run_snapshot_top_spread_scan-IsSpreadReport_example =
    run_snapshot_top_spread_scan-IsSpreadReport config fetches nat-IsOrdered
