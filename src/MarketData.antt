-- ===== src/MarketData.antt =====
-- src/market/MarketDataStore.{hpp,cpp}: `class MarketDataStore`, a book for each exchange and symbol.
pub mod Laws
mod Tests
use arbitrage_engine.Base.{
  ℕ, Bool, true, false, ◌&&◌, Option, none, some, List, [], ◌∷◌, if◌then◌else◌, Text, has_value,
  length,
}
use arbitrage_engine.Core.{Exchange}
use arbitrage_engine.OrderBook.{OrderBook, best_bid, best_ask}
use arbitrage_engine.Dict.{lookup, insert}

pub record Store (W : Type 0) : Type 0 where
  pub binance_books : List (Text × OrderBook W)
  pub mexc_books : List (Text × OrderBook W)

module _ {W : Type 0} where
  abbrev pub empty_store : Store W
  empty_store = record { binance_books = []; mexc_books = [] }

  unfoldable pub books_for : Store W → Exchange → List (Text × OrderBook W)
  books_for s Exchange.binance = s.binance_books
  books_for s Exchange.mexc = s.mexc_books

  unfoldable pub set_book : Store W → Exchange → Text → OrderBook W → Store W
  set_book s Exchange.binance symbol b = record s {
    binance_books = insert symbol b s.binance_books;
  }
  set_book s Exchange.mexc symbol b = record s { mexc_books = insert symbol b s.mexc_books }

  -- `none` is the null pointer.
  unfoldable pub get_book : Store W → Exchange → Text → Option (OrderBook W)
  get_book s e symbol = lookup symbol (books_for s e)

  unfoldable pub has_book : Store W → Exchange → Text → Bool
  has_book s e symbol = has_value (get_book s e symbol)

  unfoldable pub has_ready_book : Store W → Exchange → Text → Bool
  has_ready_book s e symbol = elim (get_book s e symbol) [
    | none ↦ false
    | some b ↦ b.initialized && (has_value (best_bid b) && has_value (best_ask b))
  ]

  -- The loop of `ready_symbols`.
  unfoldable pub ready_keys : List (Text × OrderBook W) → List Text
  ready_keys [] = []
  ready_keys ((symbol, b) ∷ books) =
      let rest = ready_keys books in
      if b.initialized && (has_value (best_bid b) && has_value (best_ask b))
      then symbol ∷ rest
      else rest

  unfoldable pub ready_symbols : Store W → Exchange → List Text
  ready_symbols s e = ready_keys (books_for s e)

  unfoldable pub book_count : Store W → Exchange → ℕ
  book_count s e = length (books_for s e)

  unfoldable pub clear : Store W → Store W
  clear s = record { binance_books = []; mexc_books = [] }
