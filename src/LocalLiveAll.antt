-- ===== src/LocalLiveAll.antt =====
-- src/main.cpp, `run_binance_local_live_all` and `run_mexc_local_live_all`: a local book for every symbol, which
-- WebSocket threads feed while the main thread synchronises one after the other. The two functions differ in
-- the exchange, and the second one counts the messages that it ignores. What the threads do between two
-- critical sections of the main thread is a list of messages, each as the parser gives it.
pub mod State
pub mod Status
pub mod Steps
pub mod Accounts
pub mod Counters
mod Tests
use arbitrage_engine.Base.{
  ℕ, zero, suc, ◌+◌, Bool, true, false, ltb, if◌then◌else◌, Option, none, some, List, [], ◌∷◌,
  inc64, length, Text, codes, Result, ok, thrown, ◌>>=◌, ◌>>◌,
}
use arbitrage_engine.Double.{Double}
use arbitrage_engine.Core.{Exchange, BookUpdate, BookSnapshot}
use arbitrage_engine.Dict.{lookup, insert}
use arbitrage_engine.Config.{Config}
use arbitrage_engine.Planner.{Group}
use arbitrage_engine.Endpoint.{Endpoint, make_ws_endpoint}
use arbitrage_engine.LocalBook
use arbitrage_engine.LocalBook.{LocalBook, UpdateResult}
use arbitrage_engine.LocalBook.Binance
use arbitrage_engine.LocalBook.Mexc
use arbitrage_engine.MarketData.{Store}
use arbitrage_engine.Live.{
  Managers, make_managers, build_store_from_binance_managers, build_store_from_mexc_managers,
}
use arbitrage_engine.Live.Sync.{count_ready, count_need_resync}
use arbitrage_engine.LocalLive.{Messages, Poll, is_applied}
use arbitrage_engine.LocalLiveAll.State.{Books, new_books, has_buffer, on_messages}

-- What an attempt meets: the messages while the snapshot is fetched, what the request gives, and the
-- messages from the attempt's end to the next one.
pub record Attempt (W : Type 0) : Type 0 where
  pub fetching : Messages W
  pub snapshot : Result (BookSnapshot W)
  pub ending : Messages W

-- What the synchronisation of a symbol meets: the looks until the deadline, and the attempts.
pub record Inputs (W : Type 0) : Type 0 where
  pub polls : List (Poll W)
  pub attempt : ℕ → Attempt W

-- The counts of the main thread.
pub record Synced : Type 0 where
  pub synced_books : ℕ
  pub failed_books : ℕ

pub record Report (W : Type 0) : Type 0 where
  pub books : Books W
  pub synced : Synced
  pub ready_books : ℕ
  pub need_resync_books : ℕ
  pub store : Store W

abbrev pub build_store : {W : Type 0} → Exchange → Managers W → Store W
build_store Exchange.binance = build_store_from_binance_managers
build_store Exchange.mexc = build_store_from_mexc_managers

-- The endpoint of a group.
abbrev pub group_endpoint : {W : Type 0} → Exchange → Config W → Group → Result Endpoint
group_endpoint Exchange.binance config group =
    make_ws_endpoint config.binance.ws_base_url group.websocket_target
group_endpoint Exchange.mexc config group = make_ws_endpoint config.mexc.ws_base_url (codes "/ws")

unfoldable pub endpoints : {W : Type 0} → Exchange → Config W → List Group → Result (List Endpoint)
endpoints e config [] = ok []
endpoints e config (group ∷ groups) = do
  endpoint ← group_endpoint e config group
  rest ← endpoints e config groups
  ok (endpoint ∷ rest)

abbrev pub count_synced : Bool → Synced → Synced
count_synced true s = record s { synced_books = inc64 s.synced_books }
count_synced false s = record s { failed_books = inc64 s.failed_books }

module _ {W : Type 0} ⦃d : Double W⦄ (e : Exchange) where
  -- `wait_for_symbol_buffer`
  unfoldable pub wait_for_symbol_buffer : Text → List (Poll W) → Books W → Books W × Bool
  wait_for_symbol_buffer symbol [] b = (b, false)
  wait_for_symbol_buffer symbol (p ∷ polls) b =
      let b' = on_messages e b p.messages in
      let rest = wait_for_symbol_buffer symbol polls b' in
      if has_buffer symbol b' then (b', true) else if p.finished then (b', false) else rest

  -- The locked part of an attempt, on the local book. Where the snapshot is not applied the book is reset.
  unfoldable pub apply_or_reset : LocalBook W → BookSnapshot W → LocalBook W × Bool
  apply_or_reset m s =
      let (m', result) = LocalBook.apply_snapshot e m s in
      if is_applied result then (m', true) else (LocalBook.reset m', false)

  -- The `try` block. What the request or `managers.at` throws is caught.
  unfoldable pub try_snapshot : Text → Attempt W → Books W → Books W × Bool
  try_snapshot symbol a b =
      let b' = on_messages e b a.fetching in
      elim a.snapshot [
        | thrown t ↦ (b', false)
        | ok s ↦ elim (lookup symbol b'.managers) [
          | none ↦ (b', false)
          | some m ↦
              let (m', done) = apply_or_reset m s in
              (record b' { managers = insert symbol m' b'.managers }, done)
        ]
      ]

  -- The loop over the attempts. The first argument counts the turns that are left.
  unfoldable pub sync_loop : ℕ → ℕ → Text → (ℕ → Attempt W) → Books W → Books W × Bool
  unfolding try_snapshot
  sync_loop zero k symbol attempt b = (b, false)
  sync_loop (suc left) k symbol attempt b =
      let tried = try_snapshot symbol (attempt k) b in
      let rest = sync_loop left (k + 1) symbol attempt (on_messages e tried.0 (attempt k).ending) in
      if tried.1 then (tried.0, true) else rest

  unfoldable pub sync_symbol : Text → Inputs W → Books W → Books W × Bool
  unfolding sync_loop wait_for_symbol_buffer
  sync_symbol symbol inputs b =
      let waited = wait_for_symbol_buffer symbol inputs.polls b in
      if waited.1 then sync_loop 3 1 symbol inputs.attempt waited.0 else (waited.0, false)

  -- The loop over the symbols, for what each meets.
  unfoldable pub sync_symbols : List Text → (ℕ → Inputs W) → ℕ → Books W × Synced → Books W × Synced
  sync_symbols [] inputs i (b, s) = (b, s)
  sync_symbols (symbol ∷ symbols) inputs i (b, s) =
      let done = sync_symbol symbol (inputs i) b in
      sync_symbols symbols inputs (i + 1) (done.0, count_synced done.1 s)

  -- What is reported after the threads have ended.
  abbrev pub report : Books W × Synced → Messages W → Report W
  report (b, s) closing =
      let b' = on_messages e b closing in
      record {
        books = b';
        synced = s;
        ready_books = count_ready b'.managers;
        need_resync_books = count_need_resync b'.managers;
        store = build_store e b'.managers;
      }

  -- The whole function: `closing` are the messages from the last attempt to the end of the threads, and
  -- `ws_exception` what the first thread that failed threw. Without groups nothing is run.
  unfoldable pub run_local_live_all :
      Config W → List Group → (ℕ → Inputs W) → Messages W → Option Text → Result (Option (Report W))
  run_local_live_all config [] inputs closing ws_exception = ok none
  run_local_live_all config (group ∷ groups) inputs closing ws_exception = do
    started ← endpoints e config (group ∷ groups)
    elim ws_exception [
      | some t ↦ thrown t
      | none ↦ ok (
          some (
            report
              (sync_symbols config.symbols inputs 0
                (new_books e config.symbols, record { synced_books = 0; failed_books = 0 }))
              closing))
    ]

module _ {W : Type 0} ⦃d : Double W⦄ where
  unfoldable pub run_binance_local_live_all :
      Config W → List Group → (ℕ → Inputs W) → Messages W → Option Text → Result (Option (Report W))
  unfolding run_local_live_all
  run_binance_local_live_all = run_local_live_all Exchange.binance

  unfoldable pub run_mexc_local_live_all :
      Config W → List Group → (ℕ → Inputs W) → Messages W → Option Text → Result (Option (Report W))
  unfolding run_local_live_all
  run_mexc_local_live_all = run_local_live_all Exchange.mexc
