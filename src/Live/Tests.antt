-- ===== src/Live/Tests.antt =====
-- The live books on a concrete interleaving.
use arbitrage_engine.Base.{pos, ℕ, ◌≡◌, refl, true, List, [], ◌∷◌, codes, Text, text_eq, some, none}
use arbitrage_engine.Double.{nat_double}
use arbitrage_engine.OrderedMap.{assign}
use arbitrage_engine.Core.{Exchange, BookUpdate, BookSnapshot}
use arbitrage_engine.Dict.{lookup, insert, emplace}
use arbitrage_engine.OrderBook
use arbitrage_engine.OrderBook.{OrderBook}
use arbitrage_engine.LocalBook.{
  reset, load_snapshot, drop_stale, bridge, replay_buffer, push_buffer, apply_update_to_ready_book,
}
use arbitrage_engine.LocalBook.Binance
use arbitrage_engine.LocalBook.Mexc
use arbitrage_engine.MarketData.{get_book, set_book, books_for}
use arbitrage_engine.Live.{
  Live, make_live, on_binance_message, on_mexc_message, load_binance, reset_mexc, export_ready,
  build_live_store_from_managers,
}
use arbitrage_engine.Live.Books.{IsFor, live_run-make-IsFor}
use arbitrage_engine.Live.Invariant.{
  IsLive, LiveEvent, binance_message, mexc_message, binance_snapshot, mexc_reset, live_step,
  live_run, live_run-make-IsLive,
}
use arbitrage_engine.Live.Export.{live_store, live_store-initialized}

abbrev pub symbol : Text
symbol = codes "BTCUSDT"

abbrev pub bid : BookUpdate ℕ
bid = record {
  exchange = Exchange.binance;
  symbol = symbol;
  bids = record { price = 9; quantity = 2 } ∷ [];
  asks = [];
  first_update_id = 3;
  final_update_id = 5;
  exchange_event_time_ms = pos 0;
  local_receive_time_ms = pos 0;
}

abbrev pub shot : BookSnapshot ℕ
shot = record {
  exchange = Exchange.binance;
  symbol = symbol;
  bids = [];
  asks = record { price = 10; quantity = 1 } ∷ [];
  last_update_id = 4;
  local_receive_time_ms = pos 0;
}

abbrev events : List (LiveEvent ℕ)
events =
    binance_message (some bid)
    ∷ mexc_message none
    ∷ binance_snapshot symbol shot
    ∷ mexc_reset symbol
    ∷ []

abbrev after : Live ℕ
after = live_run (make_live (symbol ∷ [])) events

abbrev synced : OrderBook ℕ
synced = record { bids = (9, 2) ∷ []; asks = (10, 1) ∷ []; last_update_id = 5; initialized = true }

stored : get_book (live_store after) Exchange.binance symbol ≡ some synced
unfolding live_run live_step make_live on_binance_message on_mexc_message load_binance reset_mexc
    build_live_store_from_managers export_ready get_book set_book books_for lookup insert emplace
    text_eq Binance.make Mexc.make Binance.on_update Mexc.on_update Binance.apply_snapshot
    load_snapshot drop_stale bridge replay_buffer push_buffer apply_update_to_ready_book
    OrderBook.apply_snapshot OrderBook.apply_update OrderBook.apply_levels assign reset
stored = refl

after-IsLive : IsLive after
after-IsLive = live_run-make-IsLive (symbol ∷ []) events

live_run-make-IsFor_example : IsFor (symbol ∷ []) after × IsLive after
live_run-make-IsFor_example = live_run-make-IsFor (symbol ∷ []) events

live_store-initialized_example : synced.initialized ≡ true
live_store-initialized_example =
    live_store-initialized (symbol ∷ []) events Exchange.binance symbol synced stored
