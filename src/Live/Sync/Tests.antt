-- ===== src/Live/Sync/Tests.antt =====
-- A synchronisation whose first wait is in vain and whose second attempt succeeds.
use arbitrage_engine.Base.{
  ℕ, zero, suc, ◌≡◌, refl, true, false, [], ◌∷◌, codes, text_eq, some, ok, thrown, Result,
}
use arbitrage_engine.Double.{nat_double}
use arbitrage_engine.OrderedMap.{assign}
use arbitrage_engine.Core.{Exchange, BookSnapshot}
use arbitrage_engine.Dict.{lookup, insert, emplace}
use arbitrage_engine.OrderBook
use arbitrage_engine.OrderBook.{OrderBook}
use arbitrage_engine.MarketData.{get_book}
use arbitrage_engine.LocalBook
use arbitrage_engine.LocalBook.{
  reset, load_snapshot, drop_stale, bridge, replay_buffer, push_buffer, apply_update_to_ready_book,
}
use arbitrage_engine.LocalBook.Binance
use arbitrage_engine.LocalBook.Mexc
use arbitrage_engine.Live.{
  make_live, make_managers, on_message, change, on_binance_message, load_binance, reset_binance,
}
use arbitrage_engine.Live.Tests.{symbol, bid, shot}
use arbitrage_engine.Live.Invariant.{binance_message, live_step, live_run}
use arbitrage_engine.Live.Export.{live_store}
use arbitrage_engine.Live.Sync.{
  Attempt, has_buffer, ready_at, fetch_loop, fetch_snapshot_with_retries, wait_for_buffer,
  try_snapshot, sync_attempt, sync_loop, sync_symbol,
}
use arbitrage_engine.Live.Sync.Laws.{IsSynced, sync_symbol-IsSynced}
use arbitrage_engine.Live.Sync.Store.{sync_symbol_store}
use arbitrage_engine.Live.Sync.Retry.{IsRetried, fetch_snapshot_with_retries-IsRetried}

-- The second request gives the snapshot.
abbrev requests : ℕ → Result (BookSnapshot ℕ)
requests n = elim n [
  | zero ↦ thrown []
  | suc m ↦ elim m [ zero ↦ thrown (codes "timeout") | suc k ↦ ok shot ]
]

abbrev attempts : ℕ → Attempt ℕ
attempts n = elim n [
  | zero ↦ record { polls = []; fetching = []; fetch = requests; ending = [] }
  | suc m ↦ elim m [
    | zero ↦ record { polls = []; fetching = []; fetch = requests; ending = [] }
    | suc k ↦ record {
      polls =
          record { events = []; finished = false }
          ∷ record { events = binance_message (some bid) ∷ []; finished = false }
          ∷ [];
      fetching = [];
      fetch = requests;
      ending = [];
    }
  ]
]

succeeds :
    (sync_symbol Exchange.binance symbol attempts (live_run (make_live (symbol ∷ [])) [])).1 ≡ true
unfolding sync_symbol sync_loop sync_attempt try_snapshot wait_for_buffer
    fetch_snapshot_with_retries fetch_loop ready_at has_buffer live_run live_step make_live
    make_managers on_binance_message on_message change load_binance reset_binance lookup insert
    emplace text_eq Binance.make Mexc.make LocalBook.make Binance.on_update LocalBook.on_update
    LocalBook.apply_snapshot Binance.apply_snapshot load_snapshot drop_stale bridge replay_buffer
    push_buffer apply_update_to_ready_book OrderBook.apply_snapshot OrderBook.apply_update
    OrderBook.apply_levels assign reset
succeeds = refl

fetch_snapshot_with_retries-IsRetried_example :
    IsRetried requests 3 1 (fetch_snapshot_with_retries 3 requests)
fetch_snapshot_with_retries-IsRetried_example = fetch_snapshot_with_retries-IsRetried requests 2

sync_symbol-IsSynced_example :
    IsSynced Exchange.binance symbol
      (make_live (symbol ∷ []))
      (sync_symbol Exchange.binance symbol attempts (make_live (symbol ∷ [])))
sync_symbol-IsSynced_example =
    sync_symbol-IsSynced Exchange.binance symbol attempts (make_live (symbol ∷ []))

sync_symbol_store_example :
    (b : OrderBook ℕ) × ((get_book
          (live_store
            (sync_symbol Exchange.binance symbol attempts
              (live_run (make_live (symbol ∷ [])) [])).0)
          Exchange.binance
          symbol
        ≡ some b)
      × (b.initialized ≡ true))
sync_symbol_store_example =
    sync_symbol_store (symbol ∷ []) [] Exchange.binance symbol attempts succeeds
