-- ===== src/LocalBook.antt =====
-- src/exchanges/BinanceLocalBookManager.{hpp,cpp} and MexcLocalBookManager.{hpp,cpp}: a local book
-- that buffers updates, is loaded by a snapshot and follows the live updates. The two classes differ
-- in the exchange that they answer for, which is an argument here; `Binance` and `Mexc` name the two.
pub mod Binance
pub mod Mexc
pub mod Replay
pub mod Snapshot
pub mod Invariant
pub mod Chain
pub mod Feed
pub mod Stream
pub mod Outcome
mod Tests
use arbitrage_engine.Base.{
  ℕ, Bool, true, false, ◌&&◌, ◌||◌, Option, none, some, List, [], ◌∷◌, ◌++◌, ltb, leb, inc64,
  if◌then◌else◌, length, Text, text_eq, drop,
}
use arbitrage_engine.Double.{Double}
use arbitrage_engine.Core.{Exchange, exchange_eq, BookUpdate, BookSnapshot}
use arbitrage_engine.OrderBook
use arbitrage_engine.OrderBook.{OrderBook, empty_book, ApplyUpdateResult}

-- `LocalBookStatus`
pub data Status : Type 0 where
  waiting_for_snapshot ready need_resync : Status

-- `LocalBookUpdateResult`
pub data UpdateResult : Type 0 where
  buffered snapshot_applied snapshot_rejected applied : UpdateResult
  ignored_stale gap_detected not_for_symbol : UpdateResult

abbrev pub is_waiting : Status → Bool
is_waiting Status.waiting_for_snapshot = true
is_waiting _ = false

abbrev pub is_ready : Status → Bool
is_ready Status.ready = true
is_ready _ = false

abbrev pub is_need_resync : Status → Bool
is_need_resync Status.need_resync = true
is_need_resync _ = false

abbrev pub is_gap_detected : UpdateResult → Bool
is_gap_detected UpdateResult.gap_detected = true
is_gap_detected _ = false

-- `LocalBookStats`
pub record Stats : Type 0 where
  pub buffered_updates : ℕ
  pub applied_updates : ℕ
  pub ignored_stale_updates : ℕ
  pub gaps_detected : ℕ

abbrev pub no_stats : Stats
no_stats = record {
  buffered_updates = 0;
  applied_updates = 0;
  ignored_stale_updates = 0;
  gaps_detected = 0;
}

-- The members of the class. The front of the deque is the head of `buffer`.
pub record LocalBook (W : Type 0) : Type 0 where
  pub symbol : Text
  pub max_buffered_updates : ℕ
  pub book : OrderBook W
  pub buffer : List (BookUpdate W)
  pub status : Status
  pub stats : Stats

module _ {W : Type 0} where
  -- The constructor.
  unfoldable pub make : Text → ℕ → LocalBook W
  make symbol max = record {
    symbol = symbol;
    max_buffered_updates = max;
    book = empty_book;
    buffer = [];
    status = Status.waiting_for_snapshot;
    stats = no_stats;
  }

  unfoldable pub reset : LocalBook W → LocalBook W
  unfolding OrderBook.clear
  reset m = record m {
    book = OrderBook.clear m.book;
    buffer = [];
    status = Status.waiting_for_snapshot;
    stats = no_stats;
  }

  abbrev pub is_book_ready : LocalBook W → Bool
  is_book_ready m = is_ready m.status

  -- `stats_.buffered_updates = buffer_.size()`, once the buffer is `us`
  abbrev pub with_buffer : LocalBook W → List (BookUpdate W) → LocalBook W
  with_buffer m us = record m {
    buffer = us;
    stats = record (m.stats) { buffered_updates = length us };
  }

  -- The branch of `on_update` for a book that waits for its snapshot.
  unfoldable pub push_buffer : LocalBook W → BookUpdate W → LocalBook W
  push_buffer m u =
      let pushed = m.buffer ++ (u ∷ []) in
      if ltb m.max_buffered_updates (length pushed)
      then with_buffer m (drop 1 pushed)
      else with_buffer m pushed

  -- The first loop of `apply_snapshot`: what is left of the buffer, and `ignored_stale_updates`.
  unfoldable pub drop_stale : ℕ → List (BookUpdate W) → ℕ → List (BookUpdate W) × ℕ
  drop_stale last [] ignored = ([], ignored)
  drop_stale last (u ∷ us) ignored =
      if leb u.final_update_id last then drop_stale last us (inc64 ignored) else (u ∷ us, ignored)

  -- The `switch` of `apply_update_to_ready_book`, where the book has taken the update.
  unfoldable pub settle : LocalBook W → ApplyUpdateResult → LocalBook W × UpdateResult
  settle m ApplyUpdateResult.applied = (
    record m {
      status = Status.ready;
      stats = record (m.stats) { applied_updates = inc64 m.stats.applied_updates };
    },
    UpdateResult.applied,
  )
  settle m ApplyUpdateResult.ignored_stale = (
    record m {
      stats = record (m.stats) { ignored_stale_updates = inc64 m.stats.ignored_stale_updates };
    },
    UpdateResult.ignored_stale,
  )
  settle m ApplyUpdateResult.gap_detected = (
    record m {
      status = Status.need_resync;
      stats = record (m.stats) { gaps_detected = inc64 m.stats.gaps_detected };
    },
    UpdateResult.gap_detected,
  )
  settle m ApplyUpdateResult.not_initialized =
      (record m { status = Status.waiting_for_snapshot }, UpdateResult.snapshot_rejected)

module _ {W : Type 0} (exchange : Exchange) where
  -- The two overloads of `belongs_to_this_book`.
  abbrev pub update_belongs : LocalBook W → BookUpdate W → Bool
  update_belongs m u = exchange_eq u.exchange exchange && text_eq u.symbol m.symbol

  abbrev pub snapshot_belongs : LocalBook W → BookSnapshot W → Bool
  snapshot_belongs m s = exchange_eq s.exchange exchange && text_eq s.symbol m.symbol

module _ {W : Type 0} ⦃d : Double W⦄ where
  unfoldable pub apply_update_to_ready_book :
      LocalBook W → BookUpdate W → LocalBook W × UpdateResult
  unfolding settle
  apply_update_to_ready_book m u =
      let (book', result) = OrderBook.apply_update m.book u in
      settle (record m { book = book' }) result

  -- The second loop of `apply_snapshot`, over the buffer, with its `return` for a gap.
  unfoldable pub replay_buffer : List (BookUpdate W) → LocalBook W → LocalBook W × UpdateResult
  replay_buffer [] m = (record m { status = Status.ready }, UpdateResult.snapshot_applied)
  replay_buffer (u ∷ us) m =
      let (m', result) = apply_update_to_ready_book m u in
      let rest = replay_buffer us (with_buffer m' us) in
      if is_gap_detected result then (with_buffer m' [], UpdateResult.gap_detected) else rest

  -- `apply_snapshot` from the test of the first update that is left in the buffer.
  unfoldable pub bridge : ℕ → List (BookUpdate W) → LocalBook W → LocalBook W × UpdateResult
  bridge last [] m = (record m { status = Status.ready }, UpdateResult.snapshot_applied)
  bridge last (u ∷ us) m =
      if ltb (inc64 last) u.first_update_id || ltb u.final_update_id (inc64 last)
      then (
        record m {
          buffer = [];
          status = Status.need_resync;
          stats = record (m.stats) {
            buffered_updates = 0;
            gaps_detected = inc64 m.stats.gaps_detected;
          };
        },
        UpdateResult.snapshot_rejected,
      )
      else replay_buffer (u ∷ us) m

  -- `apply_snapshot`, for a snapshot of this book.
  unfoldable pub load_snapshot : LocalBook W → BookSnapshot W → LocalBook W × UpdateResult
  load_snapshot m s =
      let (left, ignored) = drop_stale s.last_update_id m.buffer m.stats.ignored_stale_updates in
      bridge s.last_update_id left (record m {
        book = OrderBook.apply_snapshot m.book s.bids s.asks s.last_update_id;
        buffer = left;
        stats = record (m.stats) {
          ignored_stale_updates = ignored;
          buffered_updates = length left;
        };
      })

  module _ (exchange : Exchange) where
    unfoldable pub on_update : LocalBook W → BookUpdate W → LocalBook W × UpdateResult
    on_update m u =
        if update_belongs exchange m u
        then if is_need_resync m.status
          then (m, UpdateResult.gap_detected)
          else if is_waiting m.status
          then (push_buffer m u, UpdateResult.buffered)
          else apply_update_to_ready_book m u
        else (m, UpdateResult.not_for_symbol)

    unfoldable pub apply_snapshot : LocalBook W → BookSnapshot W → LocalBook W × UpdateResult
    apply_snapshot m s =
        if snapshot_belongs exchange m s
        then load_snapshot m s
        else (m, UpdateResult.not_for_symbol)
