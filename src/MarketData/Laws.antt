-- ===== src/MarketData/Laws.antt =====
-- What the store's readers see after each of its writers.
use arbitrage_engine.Base.{
  ◌+◌, ◌≡◌, inl, inr, refl, Bool, true, false, has_value, Option-cases, ◌&&◌, ◌||◌, Option, none,
  some, List, [], ◌∷◌, arith, if◌then◌else◌, Text, text_eq, text_eq_iff,
}
use arbitrage_engine.Core.{Exchange, exchange_eq}
use arbitrage_engine.OrderBook.{OrderBook, best_bid, best_ask}
use arbitrage_engine.Dict.{lookup}
use arbitrage_engine.Dict.Laws.{lookup-insert, IsDistinct, insert-IsDistinct, length-insert}
use arbitrage_engine.MarketData.{
  Store, books_for, set_book, get_book, has_book, has_ready_book, ready_keys, ready_symbols,
  book_count, clear, empty_store,
}

abbrev pub contains : Text → List Text → Bool
contains s [] = false
contains s (t ∷ ts) = text_eq t s || contains s ts

module _ {W : Type 0} where
  -- No symbol stands twice in a map.
  pub record IsStore (s : Store W) : Type 0 where
    pub binance_distinct : IsDistinct s.binance_books
    pub mexc_distinct : IsDistinct s.mexc_books

  pub books_for-IsDistinct : {s : Store W} (e : Exchange) → IsStore s → IsDistinct (books_for s e)
  unfolding books_for
  books_for-IsDistinct Exchange.binance h = h.binance_distinct
  books_for-IsDistinct Exchange.mexc h = h.mexc_distinct

  pub empty_store-IsStore : IsStore (empty_store {W = W})
  empty_store-IsStore = record { binance_distinct = tt; mexc_distinct = tt }

  pub set_book-IsStore :
      (s : Store W) (e : Exchange) (symbol : Text) (b : OrderBook W)
      → IsStore s
      → IsStore (set_book s e symbol b)
  unfolding set_book
  set_book-IsStore s Exchange.binance symbol b h = record {
    binance_distinct = insert-IsDistinct symbol b s.binance_books h.binance_distinct;
    mexc_distinct = h.mexc_distinct;
  }
  set_book-IsStore s Exchange.mexc symbol b h = record {
    binance_distinct = h.binance_distinct;
    mexc_distinct = insert-IsDistinct symbol b s.mexc_books h.mexc_distinct;
  }

  -- A book that is set is the one that is read for its exchange and symbol, and the books of every
  -- other exchange and symbol are read as before.
  pub get_book-set_book :
      (s : Store W) (e f : Exchange) (symbol other : Text) (b : OrderBook W)
      → get_book (set_book s e symbol b) f other
        ≡ (if exchange_eq e f && text_eq symbol other then some b else get_book s f other)
  unfolding get_book set_book books_for
  get_book-set_book s Exchange.binance Exchange.binance symbol other b =
      lookup-insert other symbol b s.binance_books
  get_book-set_book s Exchange.binance Exchange.mexc symbol other b = refl
  get_book-set_book s Exchange.mexc Exchange.binance symbol other b = refl
  get_book-set_book s Exchange.mexc Exchange.mexc symbol other b =
      lookup-insert other symbol b s.mexc_books

  -- Setting a book adds one to the count of its exchange exactly if the exchange had no book for the
  -- symbol, and leaves the count of the other exchange.
  pub book_count-set_book :
      (s : Store W) (e f : Exchange) (symbol : Text) (b : OrderBook W)
      → book_count (set_book s e symbol b) f ≡ (
          if exchange_eq e f
          then (if has_book s e symbol then book_count s f else book_count s f + 1)
          else book_count s f)
  unfolding book_count set_book books_for has_book get_book
  book_count-set_book s Exchange.binance Exchange.binance symbol b =
      length-insert symbol b s.binance_books
  book_count-set_book s Exchange.binance Exchange.mexc symbol b = refl
  book_count-set_book s Exchange.mexc Exchange.binance symbol b = refl
  book_count-set_book s Exchange.mexc Exchange.mexc symbol b = length-insert symbol b s.mexc_books

  abbrev pub has_levels : List (W × W) → Bool
  has_levels [] = false
  has_levels (level ∷ levels) = true

  -- What it is for a book to be ready: it is there, loaded, and has a level on each side.
  abbrev pub is_ready : Option (OrderBook W) → Bool
  is_ready none = false
  is_ready (some b) = b.initialized && (has_levels b.bids && has_levels b.asks)

  is_ready_best :
      (b : OrderBook W)
      → (b.initialized && (has_value (best_bid b) && has_value (best_ask b))) ≡ is_ready (some b)
  unfolding best_bid best_ask
  is_ready_best b = ground arith

  ready_keys-none :
      (symbol : Text) (books : List (Text × OrderBook W))
      → lookup symbol books ≡ none
      → contains symbol (ready_keys books) ≡ false
  unfolding ready_keys lookup
  ready_keys-none symbol [] h = refl
  ready_keys-none symbol ((t, b) ∷ books) h = ground (arith, ready_keys-none symbol books)

  contains-ready_keys :
      (symbol : Text) (books : List (Text × OrderBook W))
      → IsDistinct books
      → contains symbol (ready_keys books) ≡ is_ready (lookup symbol books)
  unfolding ready_keys lookup
  contains-ready_keys symbol [] d = refl
  contains-ready_keys symbol ((t, b) ∷ books) (a, d) = ground (
    arith,
    text_eq_iff t symbol,
    is_ready_best b,
    contains-ready_keys symbol books d,
    ready_keys-none symbol books,
  )

  pub has_ready_book_lem :
      (s : Store W) (e : Exchange) (symbol : Text)
      → has_ready_book s e symbol ≡ is_ready (lookup symbol (books_for s e))
  unfolding has_ready_book get_book
  has_ready_book_lem s e symbol = elim (Option-cases (lookup symbol (books_for s e))) [
    | inl n ↦ rw (has_ready_book, n) refl
    | inr (b, n) ↦ rw (has_ready_book, n) (is_ready_best b)
  ]

  -- In a store with no symbol twice, `ready_symbols` lists a symbol, and `has_ready_book` accepts it,
  -- each exactly if the symbol has a book that is initialised and has a bid and an ask.
  pub contains-ready_symbols :
      (s : Store W) (e : Exchange) (symbol : Text)
      → IsStore s
      → (contains symbol (ready_symbols s e) ≡ is_ready (lookup symbol (books_for s e)))
        × (has_ready_book s e symbol ≡ is_ready (lookup symbol (books_for s e)))
  unfolding ready_symbols
  contains-ready_symbols s e symbol h = (
    contains-ready_keys symbol (books_for s e) (books_for-IsDistinct e h),
    has_ready_book_lem s e symbol,
  )

  -- After `clear` no exchange has a book.
  pub clear_lem :
      (s : Store W) (e : Exchange) (symbol : Text)
      → (has_book (clear s) e symbol ≡ false) × (book_count (clear s) e ≡ 0)
  unfolding clear has_book book_count get_book books_for lookup
  clear_lem s Exchange.binance symbol = (refl, refl)
  clear_lem s Exchange.mexc symbol = (refl, refl)
