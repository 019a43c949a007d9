-- ===== src/SnapshotScan.antt =====
-- src/main.cpp, `run_snapshot_top_spread_scan` and `run_snapshot_arbitrage_scan`: a store of books from REST
-- snapshots, and what the two scans of it report.
pub mod Books
pub mod Counts
pub mod Reports
mod Tests
use arbitrage_engine.Base.{
  ℕ, suc, Bool, true, false, not, ◌||◌, ◌&&◌, Option, none, some, List, [], ◌∷◌, ◌++◌,
  if◌then◌else◌, inc64, length, Text, Result, ok, thrown,
}
use arbitrage_engine.Double.{Double}
use arbitrage_engine.Core.{Exchange, BookSnapshot}
use arbitrage_engine.Config.{Config}
use arbitrage_engine.OrderBook
use arbitrage_engine.OrderBook.{OrderBook, empty_book}
use arbitrage_engine.MarketData.{Store, empty_store, set_book, get_book, has_ready_book}
use arbitrage_engine.Sort.{sort_by}
use arbitrage_engine.Engine.{Settings, Opportunity, scan_symbol, better}
use arbitrage_engine.Spread.{TopOfBookSpread, compute_top_of_book_spread, make_arbitrage_settings}
use arbitrage_engine.Scan.{wider, push_spread, ready_pair}
use arbitrage_engine.Live.Sync.{fetch_snapshot_with_retries}

-- What each request gives: for the symbol at a position of the configuration, an exchange, and the number of
-- the attempt.
abbrev pub Fetches : Type 0 → Type 0
Fetches W = ℕ → Exchange → ℕ → Result (BookSnapshot W)

-- The store and the two counters.
pub record Loaded (W : Type 0) : Type 0 where
  pub store : Store W
  pub binance_loaded : ℕ
  pub mexc_loaded : ℕ

abbrev pub nothing_loaded : {W : Type 0} → Loaded W
nothing_loaded = record { store = empty_store; binance_loaded = 0; mexc_loaded = 0 }

pub record ArbitrageReport (W : Type 0) : Type 0 where
  pub loaded : Loaded W
  pub ready_pairs : ℕ
  pub opportunities : List (Opportunity W)

pub record SpreadReport (W : Type 0) : Type 0 where
  pub loaded : Loaded W
  pub ready_pairs : ℕ
  pub spreads : List (TopOfBookSpread W)

module _ {W : Type 0} ⦃d : Double W⦄ where
  -- A new book with the snapshot applied.
  unfoldable pub book_of : BookSnapshot W → OrderBook W
  unfolding OrderBook.apply_snapshot
  book_of s = OrderBook.apply_snapshot empty_book s.bids s.asks s.last_update_id

  abbrev pub count_loaded : Exchange → Store W → Loaded W → Loaded W
  count_loaded Exchange.binance store l = record {
    store = store;
    binance_loaded = inc64 l.binance_loaded;
    mexc_loaded = l.mexc_loaded;
  }
  count_loaded Exchange.mexc store l = record {
    store = store;
    binance_loaded = l.binance_loaded;
    mexc_loaded = inc64 l.mexc_loaded;
  }

  -- One of the two `try` blocks: a request that fails leaves everything as it is.
  unfoldable pub load_book : Exchange → Text → Result (BookSnapshot W) → Loaded W → Loaded W
  load_book e symbol (thrown error) l = l
  load_book e symbol (ok s) l = count_loaded e (set_book l.store e symbol (book_of s)) l

  unfoldable pub load_symbol : Fetches W → ℕ → Text → Loaded W → Loaded W
  load_symbol fetch i symbol l =
      load_book Exchange.mexc symbol (fetch_snapshot_with_retries 3 (fetch i Exchange.mexc)) (
        load_book Exchange.binance symbol (fetch_snapshot_with_retries 3 (fetch i Exchange.binance))
          l)

  -- The loop over the symbols, from a position on.
  unfoldable pub load_books : Fetches W → ℕ → List Text → Loaded W → Loaded W
  load_books fetch i [] l = l
  load_books fetch i (symbol ∷ symbols) l =
      load_books fetch (suc i) symbols (load_symbol fetch i symbol l)

  -- The two books, unless the turn is left by `continue`.
  unfoldable pub both_ready : Store W → Text → Option (OrderBook W × OrderBook W)
  both_ready store symbol =
      if not (has_ready_book store Exchange.binance symbol)
        || not (has_ready_book store Exchange.mexc symbol)
      then none
      else elim (get_book store Exchange.binance symbol) [
        | none ↦ none
        | some binance ↦ elim (get_book store Exchange.mexc symbol) [
          | none ↦ none
          | some mexc ↦ some (binance, mexc)
        ]
      ]

  -- A turn of the second loop of `run_snapshot_arbitrage_scan`. `none` means that the engine's fuel ran out.
  unfoldable pub arbitrage_turn :
      ℕ
      → Settings W
      → Text
      → Option (OrderBook W × OrderBook W)
      → ℕ × List (Opportunity W)
      → Option (ℕ × List (Opportunity W))
  arbitrage_turn fuel settings symbol none found = some found
  arbitrage_turn fuel settings symbol (some (binance, mexc)) (ready, all) =
      elim (scan_symbol fuel settings symbol binance mexc) [
        | none ↦ none
        | some os ↦ some (inc64 ready, all ++ os)
      ]

  unfoldable pub arbitrage_loop :
      ℕ
      → Settings W
      → Store W
      → List Text
      → ℕ × List (Opportunity W)
      → Option (ℕ × List (Opportunity W))
  arbitrage_loop fuel settings store [] found = some found
  arbitrage_loop fuel settings store (symbol ∷ symbols) found =
      elim (arbitrage_turn fuel settings symbol (both_ready store symbol) found) [
        | none ↦ none
        | some found' ↦ arbitrage_loop fuel settings store symbols found'
      ]

  unfoldable pub run_snapshot_arbitrage_scan : ℕ → Config W → Fetches W → Option (ArbitrageReport W)
  run_snapshot_arbitrage_scan fuel c fetch =
      let loaded = load_books fetch 0 c.symbols nothing_loaded in
      elim (arbitrage_loop fuel (make_arbitrage_settings c) loaded.store c.symbols (0, [])) [
        | none ↦ none
        | some (ready, all) ↦
            some
              (record { loaded = loaded; ready_pairs = ready; opportunities = sort_by better all })
      ]

  -- The spread of a symbol, unless the turn is left by `continue`.
  unfoldable pub spread_at : Config W → Store W → Text → Option (TopOfBookSpread W)
  spread_at c store symbol = elim (ready_pair store symbol) [
    | none ↦ none
    | some (binance, mexc) ↦ compute_top_of_book_spread symbol binance mexc c
  ]

  abbrev pub spread_turn :
      Option (TopOfBookSpread W) → ℕ × List (TopOfBookSpread W) → ℕ × List (TopOfBookSpread W)
  spread_turn none found = found
  spread_turn (some s) (ready, ss) = (inc64 ready, ss ++ (s ∷ []))

  unfoldable pub spread_loop :
      Config W → Store W → List Text → ℕ × List (TopOfBookSpread W) → ℕ × List (TopOfBookSpread W)
  spread_loop c store [] found = found
  spread_loop c store (symbol ∷ symbols) found =
      spread_loop c store symbols (spread_turn (spread_at c store symbol) found)

  unfoldable pub run_snapshot_top_spread_scan : Config W → Fetches W → SpreadReport W
  run_snapshot_top_spread_scan c fetch =
      let loaded = load_books fetch 0 c.symbols nothing_loaded in
      let found = spread_loop c loaded.store c.symbols (0, []) in
      record { loaded = loaded; ready_pairs = found.0; spreads = sort_by wider found.1 }
