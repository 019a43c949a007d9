-- ===== src/Monitor.antt =====
-- src/main.cpp, the modes that keep no book: `run_binance_live` and `run_mexc_live`, which count the messages of the
-- first group, and `run_binance_snapshot` and `run_mexc_snapshot`, which show the top of one snapshot.
pub mod Laws
mod Tests
use arbitrage_engine.Base.{
  ℕ, ℤ, suc, Option, none, some, List, [], ◌∷◌, inc64, length, Text, codes, Result, ok, thrown,
  ◌>>=◌, ◌>>◌,
}
use arbitrage_engine.Double.{Double}
use arbitrage_engine.Core.{Exchange, PriceLevel, BookUpdate, BookSnapshot}
use arbitrage_engine.Config.{Config}
use arbitrage_engine.Strings.{to_upper}
use arbitrage_engine.Planner.{Group}
use arbitrage_engine.OrderBook.{best_bid, best_ask}
use arbitrage_engine.Endpoint.{make_ws_endpoint}
use arbitrage_engine.Client.{Socket, Outcome, run, Send}
use arbitrage_engine.Parser.{Json}
use arbitrage_engine.Parser.Binance
use arbitrage_engine.Parser.Mexc.{Proto}
use arbitrage_engine.Parser.Mexc
use arbitrage_engine.Fetch.{fetch_snapshot}
use arbitrage_engine.SnapshotScan.{book_of}

-- The counters. The Binance mode does not count the messages that it ignores.
pub record Counts : Type 0 where
  pub raw_messages : ℕ
  pub parsed_depth_updates : ℕ
  pub ignored_messages : ℕ

abbrev pub no_counts : Counts
no_counts = record { raw_messages = 0; parsed_depth_updates = 0; ignored_messages = 0 }

abbrev pub ignored : Exchange → ℕ → ℕ
ignored Exchange.binance n = n
ignored Exchange.mexc n = inc64 n

module _ {W : Type 0} where
  -- The handler, after its parser, whose exceptions it catches.
  unfoldable pub count_message : Exchange → Result (Option (BookUpdate W)) → Counts → Counts
  count_message e (ok (some u)) c = record c {
    raw_messages = inc64 c.raw_messages;
    parsed_depth_updates = inc64 c.parsed_depth_updates;
  }
  count_message e (ok none) c = record c {
    raw_messages = inc64 c.raw_messages;
    ignored_messages = ignored e c.ignored_messages;
  }
  count_message e (thrown t) c = record c {
    raw_messages = inc64 c.raw_messages;
    ignored_messages = ignored e c.ignored_messages;
  }

  -- `parse` reads the clock, so it may say something else of a message each time; `n` counts the calls.
  unfoldable pub handler :
      Exchange → (ℕ → Text → Result (Option (BookUpdate W))) → Text → ℕ × Counts → ℕ × Counts
  handler e parse message (n, c) = (suc n, count_message e (parse n message) c)

  unfoldable pub run_binance_live :
      {J : Type 0}
      → Json J W
      → (ℕ → ℤ × ℤ)
      → Socket
      → Config W
      → List Group
      → ℕ
      → List (Result Text)
      → Result (Option ((ℕ × Counts) × Outcome))
  run_binance_live j clock socket config [] max_messages reads = ok none
  run_binance_live j clock socket config (group ∷ groups) max_messages reads = do
    endpoint ← make_ws_endpoint config.binance.ws_base_url group.websocket_target
    ok (
        some (
          run
            (λ message s.
              (handler Exchange.binance (λ n. Binance.parse j (clock n).0) message s, ok tt))
            socket endpoint max_messages [] reads (0, no_counts)))

  -- `dump` is what `build_mexc_subscription_message` makes of the streams with the JSON library, which throws
  -- if a stream is not UTF-8.
  unfoldable pub run_mexc_live :
      Proto W
      → (ℕ → ℤ × ℤ)
      → Socket
      → (List Text → Result Text)
      → Config W
      → List Group
      → ℕ
      → List (Result Text)
      → Result (Option ((ℕ × Counts) × Outcome))
  run_mexc_live p clock socket dump config [] max_messages reads = ok none
  run_mexc_live p clock socket dump config (group ∷ groups) max_messages reads = do
    endpoint ← make_ws_endpoint config.mexc.ws_base_url (codes "/ws")
    message ← dump group.streams
    ok (
        some (
          run
            (λ message s.
              (handler Exchange.mexc (λ n. Mexc.parse p (clock n).0 (clock n).1) message s, ok tt))
            socket endpoint max_messages (message ∷ []) reads (0, no_counts)))

-- What is shown of a snapshot.
pub record Shown (W : Type 0) : Type 0 where
  pub symbol : Text
  pub last_update_id : ℕ
  pub bids : ℕ
  pub asks : ℕ
  pub top_bid : Option (PriceLevel W)
  pub top_ask : Option (PriceLevel W)

module _ {W : Type 0} ⦃d : Double W⦄ where
  abbrev pub shown_of : BookSnapshot W → Shown W
  shown_of s = record {
    symbol = s.symbol;
    last_update_id = s.last_update_id;
    bids = length s.bids;
    asks = length s.asks;
    top_bid = best_bid (book_of s);
    top_ask = best_ask (book_of s);
  }

  -- The two functions differ in the exchange.
  unfoldable pub run_snapshot :
      {J : Type 0} → Json J W → Send → Exchange → ℤ → Config W → Text → Result (Shown W)
  run_snapshot j send e now config input_symbol = do
    s ← fetch_snapshot j send e now config (to_upper input_symbol)
    ok (shown_of s)

  unfoldable pub run_binance_snapshot :
      {J : Type 0} → Json J W → Send → ℤ → Config W → Text → Result (Shown W)
  unfolding run_snapshot
  run_binance_snapshot j send = run_snapshot j send Exchange.binance

  unfoldable pub run_mexc_snapshot :
      {J : Type 0} → Json J W → Send → ℤ → Config W → Text → Result (Shown W)
  unfolding run_snapshot
  run_mexc_snapshot j send = run_snapshot j send Exchange.mexc
