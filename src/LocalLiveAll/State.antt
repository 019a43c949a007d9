-- ===== src/LocalLiveAll/State.antt =====
-- src/main.cpp, `run_binance_local_live_all` and `run_mexc_local_live_all`: the variables that the threads share,
-- and the handler of the threads. The second function counts the messages that it ignores.
use arbitrage_engine.Base.{
  ℕ, Bool, false, ltb, Option, none, some, List, [], ◌∷◌, inc64, length, Text,
}
use arbitrage_engine.Double.{Double}
use arbitrage_engine.Core.{Exchange, BookUpdate}
use arbitrage_engine.Dict.{lookup, insert}
use arbitrage_engine.LocalBook
use arbitrage_engine.LocalBook.{LocalBook, UpdateResult}
use arbitrage_engine.LocalBook.Binance
use arbitrage_engine.LocalBook.Mexc
use arbitrage_engine.Live.{Managers, make_managers}
use arbitrage_engine.LocalLive.{Messages, count_ignored}

-- The variables that the threads share.
pub record Books (W : Type 0) : Type 0 where
  pub managers : Managers W
  pub raw_messages : ℕ
  pub parsed_updates : ℕ
  pub ignored_messages : ℕ
  pub buffered_updates : ℕ
  pub applied_updates : ℕ
  pub ignored_updates : ℕ
  pub gaps : ℕ

module _ {W : Type 0} where
  unfoldable pub new_books : Exchange → List Text → Books W
  new_books e symbols = record {
    managers = make_managers (make_manager e) symbols [];
    raw_messages = 0;
    parsed_updates = 0;
    ignored_messages = 0;
    buffered_updates = 0;
    applied_updates = 0;
    ignored_updates = 0;
    gaps = 0;
  }
    where
      make_manager : Exchange → Text → LocalBook W
      make_manager Exchange.binance = Binance.make
      make_manager Exchange.mexc = Mexc.make

  -- The `switch` on the result of `on_update`.
  unfoldable pub tally : UpdateResult → Books W → Books W
  tally UpdateResult.buffered b = record b { buffered_updates = inc64 b.buffered_updates }
  tally UpdateResult.applied b = record b { applied_updates = inc64 b.applied_updates }
  tally UpdateResult.ignored_stale b = record b { ignored_updates = inc64 b.ignored_updates }
  tally UpdateResult.gap_detected b = record b { gaps = inc64 b.gaps }
  tally _ b = b

  -- `it != managers.end() && it->second.buffered_updates() > 0`
  unfoldable pub has_buffer : Text → Books W → Bool
  has_buffer symbol b = elim (lookup symbol b.managers) [
    | none ↦ false
    | some m ↦ ltb 0 (length m.buffer)
  ]

  -- `++raw_messages` and `++parsed_updates`, with the local book of a symbol after an update.
  abbrev pub take_update : Text → LocalBook W → Books W → Books W
  take_update symbol m b = record b {
    managers = insert symbol m b.managers;
    raw_messages = inc64 b.raw_messages;
    parsed_updates = inc64 b.parsed_updates;
  }

module _ {W : Type 0} ⦃d : Double W⦄ (e : Exchange) where
  -- The handler of the threads, after its parser.
  unfoldable pub on_message : Books W → Option (BookUpdate W) → Books W
  unfolding tally
  on_message b none = record b {
    raw_messages = inc64 b.raw_messages;
    ignored_messages = count_ignored e b.ignored_messages;
  }
  on_message b (some u) = elim (lookup u.symbol b.managers) [
    | none ↦ record b {
      raw_messages = inc64 b.raw_messages;
      parsed_updates = inc64 b.parsed_updates;
      ignored_updates = inc64 b.ignored_updates;
    }
    | some m ↦
        let (m', result) = LocalBook.on_update e m u in tally result (take_update u.symbol m' b)
  ]

  unfoldable pub on_messages : Books W → Messages W → Books W
  on_messages b [] = b
  on_messages b (u ∷ us) = on_messages (on_message b u) us
