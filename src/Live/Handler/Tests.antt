-- ===== src/Live/Handler/Tests.antt =====
-- A Binance message and a thread of them, on books where one waits.
use arbitrage_engine.Base.{ℕ, ◌≡◌, refl, some, [], ◌∷◌, codes, text_eq, pos, ok}
use arbitrage_engine.Double.{nat_double}
use arbitrage_engine.Dict.{lookup, insert, emplace}
use arbitrage_engine.LocalBook.Binance
use arbitrage_engine.Parser.Tests.{tree, update, parsed}
use arbitrage_engine.Core.{Exchange}
use arbitrage_engine.Live.{Live, make_live, make_managers}
use arbitrage_engine.Live.Invariant.{IsLive, live_run, live_run-make-IsLive}
use arbitrage_engine.Live.Handler.{Clock, binance_handler}
use arbitrage_engine.Live.Handler.Laws.{IsGiven, binance_handler-accepts}

abbrev clock : Clock
clock n = (pos 60, pos 61)

abbrev books : Live ℕ
books = make_live (codes "BTCUSDT" ∷ [])

stored : lookup (codes "BTCUSDT") books.binance.managers ≡ some (Binance.make (codes "BTCUSDT"))
unfolding make_live make_managers lookup insert emplace text_eq Binance.make
stored = refl

books-IsLive : IsLive books
unfolding live_run
books-IsLive = live_run-make-IsLive (codes "BTCUSDT" ∷ []) []

binance_handler-accepts_example :
    let (s, r) = binance_handler tree clock (codes "depth") (3, books) in
    (r ≡ ok tt)
    × (s.0 ≡ 4)
    × IsGiven Exchange.binance
        (λ k. k.binance)
        (λ k. k.mexc)
        books
        s.1
        update
        (Binance.make (codes "BTCUSDT"))
binance_handler-accepts_example =
    binance_handler-accepts tree clock (codes "depth") 3 books update
      (Binance.make (codes "BTCUSDT")) books-IsLive parsed stored
