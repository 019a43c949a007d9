-- ===== src/MarketData/Tests.antt =====
-- The store on concrete books.
use arbitrage_engine.Base.{ℕ, ◌≡◌, refl, true, false, [], ◌∷◌, codes, Text, text_eq}
use arbitrage_engine.Core.{Exchange}
use arbitrage_engine.OrderBook.{OrderBook, empty_book, best_bid, best_ask}
use arbitrage_engine.Dict.{insert, lookup}
use arbitrage_engine.MarketData.{
  Store, empty_store, set_book, books_for, has_book, has_ready_book, ready_keys, ready_symbols,
  clear,
}
use arbitrage_engine.MarketData.Laws.{
  contains, is_ready, IsStore, empty_store-IsStore, set_book-IsStore, contains-ready_symbols,
  clear_lem,
}

abbrev symbol : Text
symbol = codes "BTCUSDT"

abbrev other : Text
other = codes "ETHUSDT"

abbrev full : OrderBook ℕ
full = record { bids = (9, 1) ∷ []; asks = (10, 1) ∷ []; last_update_id = 4; initialized = true }

abbrev two_books : Store ℕ
two_books =
    set_book (set_book empty_store Exchange.binance symbol full) Exchange.binance other empty_book

one_ready : ready_symbols two_books Exchange.binance ≡ symbol ∷ []
unfolding ready_symbols ready_keys books_for set_book insert text_eq best_bid best_ask
one_ready = refl

two_books-IsStore : IsStore two_books
two_books-IsStore =
    set_book-IsStore _ Exchange.binance other empty_book
      (set_book-IsStore _ Exchange.binance symbol full empty_store-IsStore)

set_book-IsStore_example : IsStore (set_book two_books Exchange.mexc symbol full)
set_book-IsStore_example = set_book-IsStore two_books Exchange.mexc symbol full two_books-IsStore

contains-ready_symbols_example :
    (contains other (ready_symbols two_books Exchange.binance)
      ≡ is_ready (lookup other (books_for two_books Exchange.binance)))
    × (has_ready_book two_books Exchange.binance other
        ≡ is_ready (lookup other (books_for two_books Exchange.binance)))
contains-ready_symbols_example =
    contains-ready_symbols two_books Exchange.binance other two_books-IsStore

clear_lem_example : has_book (clear two_books) Exchange.binance symbol ≡ false
clear_lem_example = (clear_lem two_books Exchange.binance symbol).0
