-- ===== src/Live.antt =====
-- src/main.cpp, `run_live_arbitrage_scan`: the local books of both exchanges, the handlers that the
-- WebSocket threads call under the lock, the locked parts of the synchronisation, and the stores
-- that are built from the books. Each function here is one critical section.
pub mod Entries
pub mod Invariant
pub mod Books
pub mod Export
pub mod Sync
pub mod Handler
pub mod Tests
use arbitrage_engine.Base.{
  Bool, true, false, ℕ, Option, none, some, List, [], ◌∷◌, if◌then◌else◌, inc64, Text,
}
use arbitrage_engine.Double.{Double}
use arbitrage_engine.Core.{Exchange, BookUpdate, BookSnapshot}
use arbitrage_engine.Dict.{lookup, insert, emplace}
use arbitrage_engine.LocalBook.{LocalBook, is_ready, is_need_resync}
use arbitrage_engine.LocalBook.Binance
use arbitrage_engine.LocalBook.Mexc
use arbitrage_engine.MarketData.{Store, empty_store, set_book}

abbrev pub Managers : Type 0 → Type 0
Managers W = List (Text × LocalBook W)

-- The books of one exchange, with the counters of its handler.
pub record Side (W : Type 0) : Type 0 where
  pub managers : Managers W
  pub raw_messages : ℕ
  pub parsed_updates : ℕ
  pub ignored_messages : ℕ
  pub gaps : ℕ

pub record Live (W : Type 0) : Type 0 where
  pub binance : Side W
  pub mexc : Side W

module _ {W : Type 0} where
  -- The loop that makes a local book for each symbol.
  unfoldable pub make_managers : (Text → LocalBook W) → List Text → Managers W → Managers W
  make_managers make [] ms = ms
  make_managers make (symbol ∷ symbols) ms =
      make_managers make symbols (emplace symbol (make symbol) ms)

  abbrev pub make_side : Managers W → Side W
  make_side ms = record {
    managers = ms;
    raw_messages = 0;
    parsed_updates = 0;
    ignored_messages = 0;
    gaps = 0;
  }

  unfoldable pub make_live : List Text → Live W
  unfolding make_managers
  make_live symbols = record {
    binance = make_side (make_managers Binance.make symbols []);
    mexc = make_side (make_managers Mexc.make symbols []);
  }

  -- `++raw_messages`, and one of the branches of the handler.
  abbrev pub ignore_message : Side W → Side W
  ignore_message s = record s {
    raw_messages = inc64 s.raw_messages;
    ignored_messages = inc64 s.ignored_messages;
  }

  abbrev pub ignore_update : Side W → Side W
  ignore_update s = record s {
    raw_messages = inc64 s.raw_messages;
    parsed_updates = inc64 s.parsed_updates;
    ignored_messages = inc64 s.ignored_messages;
  }

  abbrev pub take_update : Side W → Text → LocalBook W → Side W
  take_update s symbol m = record s {
    managers = insert symbol m s.managers;
    raw_messages = inc64 s.raw_messages;
    parsed_updates = inc64 s.parsed_updates;
    gaps = if is_need_resync m.status then inc64 s.gaps else s.gaps;
  }

  -- The handler of one exchange, for what its parser made of the message.
  unfoldable pub on_message :
      (LocalBook W → BookUpdate W → LocalBook W) → Side W → Option (BookUpdate W) → Side W
  on_message on_update s none = ignore_message s
  on_message on_update s (some u) = elim (lookup u.symbol s.managers) [
    | none ↦ ignore_update s
    | some m ↦ take_update s u.symbol (on_update m u)
  ]

  -- `managers.at(symbol)`, changed in place; without the symbol it throws, and nothing changes.
  unfoldable pub change : (LocalBook W → LocalBook W) → Side W → Text → Side W
  change f s symbol = elim (lookup symbol s.managers) [
    | none ↦ s
    | some m ↦ record s { managers = insert symbol (f m) s.managers }
  ]

  unfoldable pub reset_binance : Live W → Text → Live W
  unfolding change
  reset_binance l symbol = record l { binance = change Binance.reset l.binance symbol }

  unfoldable pub reset_mexc : Live W → Text → Live W
  unfolding change
  reset_mexc l symbol = record l { mexc = change Mexc.reset l.mexc symbol }

  -- The loops of the three functions that build a store.
  unfoldable pub export_ready : Exchange → Managers W → Store W → Store W
  export_ready e [] store = store
  export_ready e ((symbol, m) ∷ ms) store =
      export_ready e ms (if is_ready m.status then set_book store e symbol m.book else store)

  unfoldable pub build_live_store_from_managers : Managers W → Managers W → Store W
  build_live_store_from_managers binance mexc =
      export_ready Exchange.mexc mexc (export_ready Exchange.binance binance empty_store)

  unfoldable pub build_store_from_binance_managers : Managers W → Store W
  build_store_from_binance_managers ms = export_ready Exchange.binance ms empty_store

  unfoldable pub build_store_from_mexc_managers : Managers W → Store W
  build_store_from_mexc_managers ms = export_ready Exchange.mexc ms empty_store

module _ {W : Type 0} ⦃d : Double W⦄ where
  abbrev pub binance_update : LocalBook W → BookUpdate W → LocalBook W
  binance_update m u = (Binance.on_update m u).0

  abbrev pub mexc_update : LocalBook W → BookUpdate W → LocalBook W
  mexc_update m u = (Mexc.on_update m u).0

  unfoldable pub on_binance_message : Live W → Option (BookUpdate W) → Live W
  unfolding on_message
  on_binance_message l u = record l { binance = on_message binance_update l.binance u }

  unfoldable pub on_mexc_message : Live W → Option (BookUpdate W) → Live W
  unfolding on_message
  on_mexc_message l u = record l { mexc = on_message mexc_update l.mexc u }

  -- The locked part of `sync_binance_symbol`, after the snapshot is fetched.
  unfoldable pub load_binance : Live W → Text → BookSnapshot W → Live W
  unfolding change
  load_binance l symbol s = record l {
    binance = change (λ m. (Binance.apply_snapshot m s).0) l.binance symbol;
  }

  unfoldable pub load_mexc : Live W → Text → BookSnapshot W → Live W
  unfolding change
  load_mexc l symbol s = record l { mexc = change (λ m. (Mexc.apply_snapshot m s).0) l.mexc symbol }
