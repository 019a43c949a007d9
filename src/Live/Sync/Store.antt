-- ===== src/Live/Sync/Store.antt =====
-- A symbol that is synchronised is in the store that the scanner reads.
use arbitrage_engine.Base.{
  ℕ, ◌≡◌, refl, false, sym, ap, subst, ◌∙◌, true, Option, none, some, List, ◌++◌, Text,
}
use arbitrage_engine.Double.{Double}
use arbitrage_engine.Core.{Exchange}
use arbitrage_engine.Dict.{lookup}
use arbitrage_engine.OrderBook.{OrderBook}
use arbitrage_engine.MarketData.{get_book}
use arbitrage_engine.LocalBook.{LocalBook, is_ready}
use arbitrage_engine.Live.{Live, make_live}
use arbitrage_engine.Live.Invariant.{LiveEvent, live_run, live_run-make-IsLive, IsLive}
use arbitrage_engine.Live.Export.{
  live_store, managers_of, ready_or, get_book-live_store, live_store-initialized,
}
use arbitrage_engine.Live.Sync.{Attempt, ready_at, sync_symbol}
use arbitrage_engine.Live.Sync.Laws.{live_run-append, sync_symbol-IsSynced}

module _ {W : Type 0} ⦃d : Double W⦄ where
  ready_of :
      (m : Option (LocalBook W))
      → elim m [ none ↦ false | some m ↦ is_ready m.status ] ≡ true
      → (b : OrderBook W) × (ready_or m none ≡ some b)
  ready_of none h = absurd (cc)
  ready_of (some m) h = (m.book, rw h refl)

  ready_book :
      (e : Exchange) (symbol : Text) (l : Live W)
      → ready_at e symbol l ≡ true
      → (b : OrderBook W) × (ready_or (lookup symbol (managers_of l e)) none ≡ some b)
  unfolding ready_at
  ready_book Exchange.binance symbol l h = ready_of (lookup symbol l.binance.managers) h
  ready_book Exchange.mexc symbol l h = ready_of (lookup symbol l.mexc.managers) h

  IsLive-get_book :
      (e : Exchange) (symbol : Text) (l : Live W)
      → IsLive l
      → get_book (live_store l) e symbol ≡ ready_or (lookup symbol (managers_of l e)) none
  IsLive-get_book e symbol l h = get_book-live_store l e symbol h.0.1 h.1.1

  -- If the synchronisation of a symbol says that it succeeded, whatever happened before it and whatever
  -- the other threads did meanwhile, then the store that is built next has an initialised book of the
  -- symbol.
  pub sync_symbol_store :
      (symbols : List Text) (es : List (LiveEvent W)) (e : Exchange) (symbol : Text)
      (inputs : ℕ → Attempt W)
      → (sync_symbol e symbol inputs (live_run (make_live symbols) es)).1 ≡ true
      → (b : OrderBook W) × ((get_book
              (live_store (sync_symbol e symbol inputs (live_run (make_live symbols) es)).0)
              e
              symbol
            ≡ some b)
          × (b.initialized ≡ true))
  sync_symbol_store symbols es e symbol inputs done =
      let ((fs, run), ready) =
        sync_symbol-IsSynced e symbol inputs (live_run (make_live symbols) es) in
      let l' = (sync_symbol e symbol inputs (live_run (make_live symbols) es)).0 in
      let whole : l' ≡ live_run (make_live symbols) (es ++ fs) =
        run ∙ sym (live_run-append (make_live symbols) es fs) in
      let live = subst IsLive (sym whole) (live_run-make-IsLive symbols (es ++ fs)) in
      let (b, found) = ready_book e symbol l' (ready done) in
      let stored = IsLive-get_book e symbol l' live ∙ found in
      (
        b,
        (
          stored,
          live_store-initialized symbols (es ++ fs) e symbol b
              (ap (λ x. get_book (live_store x) e symbol) (sym whole) ∙ stored),
        ),
      )
