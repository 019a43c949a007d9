-- ===== src/SnapshotScan/Books.antt =====
-- The books that the two snapshot scans load.
use arbitrage_engine.Base.{
  ℕ, suc, ◌≡◌, refl, ap, ◌∙◌, inl, inr, ◌&&◌, if◌then◌else◌, Option, some, List, [], ◌∷◌, Text,
  text_eq, Result, ok, thrown, Bool-cases,
}
use arbitrage_engine.Double.{Double}
use arbitrage_engine.Core.{Exchange, exchange_eq, BookSnapshot}
use arbitrage_engine.OrderBook.{OrderBook}
use arbitrage_engine.MarketData.{get_book}
use arbitrage_engine.MarketData.Laws.{get_book-set_book}
use arbitrage_engine.Live.Sync.{fetch_snapshot_with_retries}
use arbitrage_engine.SnapshotScan.{Fetches, Loaded, book_of, load_book, load_symbol, load_books}

module _ {W : Type 0} ⦃d : Double W⦄ where
  -- The book of a request that succeeds, else the book there was.
  abbrev pub newer : Result (BookSnapshot W) → Option (OrderBook W) → Option (OrderBook W)
  newer (ok s) old = some (book_of s)
  newer (thrown e) old = old

  -- The book of the last successful request for a symbol at an exchange, from a position on.
  abbrev pub latest :
      Fetches W → ℕ → List Text → Exchange → Text → Option (OrderBook W) → Option (OrderBook W)
  latest fetch i [] e symbol old = old
  latest fetch i (s ∷ symbols) e symbol old =
      latest fetch (suc i) symbols e symbol
        (if text_eq s symbol then newer (fetch_snapshot_with_retries 3 (fetch i e)) old else old)

  get_book-load_book :
      (f : Exchange) (s : Text) (r : Result (BookSnapshot W)) (l : Loaded W) (e : Exchange)
      (symbol : Text)
      → get_book (load_book f s r l).store e symbol ≡ (
          if exchange_eq f e && text_eq s symbol
          then newer r (get_book l.store e symbol)
          else get_book l.store e symbol)
  unfolding load_book
  get_book-load_book Exchange.binance s (ok snap) l e symbol =
      get_book-set_book l.store Exchange.binance e s symbol (book_of snap)
  get_book-load_book Exchange.mexc s (ok snap) l e symbol =
      get_book-set_book l.store Exchange.mexc e s symbol (book_of snap)
  get_book-load_book f s (thrown t) l e symbol =
      elim (Bool-cases (exchange_eq f e && text_eq s symbol)) [
        | inl q ↦ rw q refl
        | inr q ↦ rw q refl
      ]

  get_book-load_symbol :
      (fetch : Fetches W) (i : ℕ) (s : Text) (l : Loaded W) (e : Exchange) (symbol : Text)
      → get_book (load_symbol fetch i s l).store e symbol ≡ (
          if text_eq s symbol
          then newer (fetch_snapshot_with_retries 3 (fetch i e)) (get_book l.store e symbol)
          else get_book l.store e symbol)
  unfolding load_symbol
  get_book-load_symbol fetch i s l Exchange.binance symbol =
      get_book-load_book Exchange.mexc s _ _ Exchange.binance symbol
      ∙ get_book-load_book Exchange.binance s _ l Exchange.binance symbol
  get_book-load_symbol fetch i s l Exchange.mexc symbol =
      get_book-load_book Exchange.mexc s _ _ Exchange.mexc symbol
      ∙ ap
          (λ old.
            if text_eq s symbol
            then newer (fetch_snapshot_with_retries 3 (fetch i Exchange.mexc)) old
            else old)
          (get_book-load_book Exchange.binance s _ l Exchange.mexc symbol)

  -- After the loading loop each exchange has, for each symbol, the book of the last request for that symbol
  -- that succeeded within its three attempts; a request that fails leaves the book there was, and the
  -- requests of other symbols and of the other exchange do not touch it.
  pub get_book-load_books :
      (fetch : Fetches W) (i : ℕ) (symbols : List Text) (l : Loaded W) (e : Exchange)
      (symbol : Text)
      → get_book (load_books fetch i symbols l).store e symbol
        ≡ latest fetch i symbols e symbol (get_book l.store e symbol)
  unfolding load_books
  get_book-load_books fetch i [] l e symbol = refl
  get_book-load_books fetch i (s ∷ symbols) l e symbol =
      get_book-load_books fetch (suc i) symbols (load_symbol fetch i s l) e symbol
      ∙ ap (latest fetch (suc i) symbols e symbol) (get_book-load_symbol fetch i s l e symbol)
