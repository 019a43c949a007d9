-- ===== src/LocalBook/Binance.antt =====
-- src/exchanges/BinanceLocalBookManager.{hpp,cpp}: `class BinanceLocalBookManager`.
use arbitrage_engine.Base.{ℕ, Text}
use arbitrage_engine.Double.{Double}
use arbitrage_engine.Core.{Exchange, BookUpdate, BookSnapshot}
use arbitrage_engine.LocalBook
use arbitrage_engine.LocalBook.{LocalBook, UpdateResult}

-- The default of the constructor's `max_buffered_updates`.
abbrev pub default_max_buffered : ℕ
default_max_buffered = 10000

module _ {W : Type 0} where
  -- The constructor, with the default limit.
  unfoldable pub make : Text → LocalBook W
  unfolding LocalBook.make
  make symbol = LocalBook.make symbol default_max_buffered

  abbrev pub reset : LocalBook W → LocalBook W
  reset = LocalBook.reset

module _ {W : Type 0} ⦃d : Double W⦄ where
  unfoldable pub on_update : LocalBook W → BookUpdate W → LocalBook W × UpdateResult
  unfolding LocalBook.on_update
  on_update = LocalBook.on_update Exchange.binance

  unfoldable pub apply_snapshot : LocalBook W → BookSnapshot W → LocalBook W × UpdateResult
  unfolding LocalBook.apply_snapshot
  apply_snapshot = LocalBook.apply_snapshot Exchange.binance
