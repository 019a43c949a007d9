-- ===== src/LocalLive.antt =====
-- src/main.cpp, `run_binance_local_live` and `run_mexc_local_live`: one local book that a WebSocket thread feeds
-- while the main thread synchronises it. The two functions differ in the exchange, and the second one counts the
-- messages that it ignores. What the thread does between two critical sections of the main thread is a
-- list of messages, each as the parser gives it.
pub mod Outcome
pub mod Success
pub mod Failure
mod Tests
use arbitrage_engine.Base.{
  ℕ, zero, suc, ◌+◌, Bool, true, false, ◌||◌, ltb, if◌then◌else◌, Option, none, some, List, [], ◌∷◌,
  inc64, length, Text, codes, ◌>>=◌, ◌>>◌, Result, ok, thrown,
}
use arbitrage_engine.Double.{Double}
use arbitrage_engine.Core.{Exchange, BookUpdate, BookSnapshot}
use arbitrage_engine.Config.{Config}
use arbitrage_engine.Strings.{to_upper}
use arbitrage_engine.Planner.{build_stream_name, build_binance_combined_target}
use arbitrage_engine.Endpoint.{Endpoint, make_ws_endpoint}
use arbitrage_engine.LocalBook
use arbitrage_engine.LocalBook.{LocalBook, UpdateResult, is_need_resync}
use arbitrage_engine.LocalBook.Binance
use arbitrage_engine.LocalBook.Mexc

-- The variables that the two threads share.
pub record Run (W : Type 0) : Type 0 where
  pub manager : LocalBook W
  pub raw_messages : ℕ
  pub parsed_updates : ℕ
  pub ignored_messages : ℕ
  pub buffered_updates : ℕ
  pub applied_updates : ℕ
  pub gap_logged : Bool

abbrev pub Messages : Type 0 → Type 0
Messages W = List (Option (BookUpdate W))

-- What happens from one look at the buffer to the next, and whether the thread has finished.
pub record Poll (W : Type 0) : Type 0 where
  pub messages : Messages W
  pub finished : Bool

-- What an attempt meets: the looks until the deadline, the messages while the snapshot is fetched, what the
-- request gives, and the messages from the attempt's end to the next one.
pub record Attempt (W : Type 0) : Type 0 where
  pub polls : List (Poll W)
  pub fetching : Messages W
  pub snapshot : Result (BookSnapshot W)
  pub ending : Messages W

-- How the loop of the attempts ends. An exception of the request is not caught.
pub data Ended : Type 0 where
  synced unsynced : Ended
  escaped : Text → Ended

-- How an attempt ends.
pub data Tried : Type 0 where
  done again : Tried
  failed : Text → Tried

-- How the function ends: an exception leaves it, or meets the thread while it still can be joined, which ends the
-- program by `std::terminate`, or the last line of the log shows the variables.
pub data Finished (W : Type 0) : Type 0 where
  rethrown terminated : Text → Finished W
  stopped : Run W → Finished W

abbrev pub stream_endpoint : {W : Type 0} → Exchange → Config W → Text → Result Endpoint
stream_endpoint Exchange.binance config symbol = do
  target ← build_binance_combined_target (build_stream_name Exchange.binance symbol ∷ [])
  make_ws_endpoint config.binance.ws_base_url target
stream_endpoint Exchange.mexc config symbol = make_ws_endpoint config.mexc.ws_base_url (codes "/ws")

abbrev pub is_applied : UpdateResult → Bool
is_applied UpdateResult.snapshot_applied = true
is_applied _ = false

abbrev pub count_ignored : Exchange → ℕ → ℕ
count_ignored Exchange.binance n = n
count_ignored Exchange.mexc n = inc64 n

module _ {W : Type 0} where
  unfoldable pub new_run : Exchange → Text → Run W
  new_run e input_symbol = record {
    manager = make_manager e (to_upper input_symbol);
    raw_messages = 0;
    parsed_updates = 0;
    ignored_messages = 0;
    buffered_updates = 0;
    applied_updates = 0;
    gap_logged = false;
  }
    where
      make_manager : Exchange → Text → LocalBook W
      make_manager Exchange.binance = Binance.make
      make_manager Exchange.mexc = Mexc.make

  -- The `switch` on the result of `on_update`.
  unfoldable pub tally : UpdateResult → Run W → Run W
  tally UpdateResult.buffered r = record r { buffered_updates = inc64 r.buffered_updates }
  tally UpdateResult.applied r = record r { applied_updates = inc64 r.applied_updates }
  tally UpdateResult.gap_detected r = record r { gap_logged = true }
  tally _ r = r

  unfoldable pub reset_run : Run W → Run W
  reset_run r = record r { manager = LocalBook.reset r.manager; gap_logged = false }

  abbrev pub reset_before : ℕ → Run W → Run W
  reset_before attempt r =
      if ltb 1 attempt || is_need_resync r.manager.status then reset_run r else r

module _ {W : Type 0} ⦃d : Double W⦄ (e : Exchange) where
  -- The handler of the thread, after its parser.
  unfoldable pub on_message : Run W → Option (BookUpdate W) → Run W
  unfolding tally
  on_message r none = record r {
    raw_messages = inc64 r.raw_messages;
    ignored_messages = count_ignored e r.ignored_messages;
  }
  on_message r (some u) =
      let (m, result) = LocalBook.on_update e r.manager u in
      tally result (record r {
        manager = m;
        raw_messages = inc64 r.raw_messages;
        parsed_updates = inc64 r.parsed_updates;
      })

  unfoldable pub on_messages : Run W → Messages W → Run W
  on_messages r [] = r
  on_messages r (u ∷ us) = on_messages (on_message r u) us

  -- `wait_for_buffered_updates`
  unfoldable pub wait_for_buffered_updates : List (Poll W) → Run W → Run W × Bool
  wait_for_buffered_updates [] r = (r, false)
  wait_for_buffered_updates (p ∷ polls) r =
      let r' = on_messages r p.messages in
      let rest = wait_for_buffered_updates polls r' in
      if ltb 0 (length r'.manager.buffer)
      then (r', true)
      else if p.finished
      then (r', false)
      else rest

  -- The attempt once there is a buffer: the request, and the snapshot under the lock.
  unfoldable pub try_snapshot : Attempt W → Run W → Run W × Tried
  unfolding reset_run
  try_snapshot a r =
      let r' = on_messages r a.fetching in
      elim a.snapshot [
        | thrown t ↦ (r', failed t)
        | ok s ↦
            let (m, result) = LocalBook.apply_snapshot e r'.manager s in
            let loaded : Run W = record r' { manager = m } in
            if is_applied result
            then (loaded, done)
            else (on_messages (reset_run loaded) a.ending, again)
      ]

  unfoldable pub sync_attempt : ℕ → Attempt W → Run W → Run W × Tried
  unfolding wait_for_buffered_updates try_snapshot
  sync_attempt attempt a r =
      let waited = wait_for_buffered_updates a.polls (reset_before attempt r) in
      if waited.1 then try_snapshot a waited.0 else (on_messages waited.0 a.ending, again)

  -- The loop over the attempts. The first argument counts the turns that are left.
  unfoldable pub sync_loop : ℕ → ℕ → (ℕ → Attempt W) → Run W → Run W × Ended
  unfolding sync_attempt
  sync_loop zero attempt inputs r = (r, unsynced)
  sync_loop (suc left) attempt inputs r =
      let tried = sync_attempt attempt (inputs attempt) r in
      let rest = sync_loop left (attempt + 1) inputs tried.0 in
      elim tried.1 [ done ↦ (tried.0, synced) | again ↦ rest | failed t ↦ (tried.0, escaped t) ]

  -- The function up to the end of the attempts.
  unfoldable pub sync_local_live : Text → (ℕ → Attempt W) → Run W × Ended
  unfolding sync_loop new_run
  sync_local_live input_symbol inputs = sync_loop 3 1 inputs (new_run e input_symbol)

  -- The thread is joined at the end, and what it threw is thrown again. Where an exception leaves the attempts the
  -- thread has not been joined.
  abbrev pub finish : Messages W → Option Text → Run W × Ended → Finished W
  finish closing ws_exception (r, escaped t) = terminated t
  finish closing none (r, synced) = stopped (on_messages r closing)
  finish closing none (r, unsynced) = stopped (on_messages r closing)
  finish closing (some t) (r, synced) = rethrown t
  finish closing (some t) (r, unsynced) = rethrown t

  -- The whole function: `closing` are the messages from the last attempt to the end of the thread, and
  -- `ws_exception` what the thread threw.
  unfoldable pub run_local_live :
      Config W → Text → (ℕ → Attempt W) → Messages W → Option Text → Finished W
  unfolding sync_local_live
  run_local_live config input_symbol inputs closing ws_exception =
      elim (stream_endpoint e config (to_upper input_symbol)) [
        | thrown t ↦ rethrown t
        | ok endpoint ↦ finish closing ws_exception (sync_local_live input_symbol inputs)
      ]

module _ {W : Type 0} ⦃d : Double W⦄ where
  unfoldable pub run_binance_local_live :
      Config W → Text → (ℕ → Attempt W) → Messages W → Option Text → Finished W
  unfolding run_local_live
  run_binance_local_live = run_local_live Exchange.binance

  unfoldable pub run_mexc_local_live :
      Config W → Text → (ℕ → Attempt W) → Messages W → Option Text → Finished W
  unfolding run_local_live
  run_mexc_local_live = run_local_live Exchange.mexc
