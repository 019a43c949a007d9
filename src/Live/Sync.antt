-- ===== src/Live/Sync.antt =====
-- src/main.cpp, `run_live_arbitrage_scan`: the synchronisation of a symbol, with its attempts, the wait for
-- a first update and the retries of the snapshot request. What the other threads do between two
-- critical sections is a list of events.
pub mod Laws
pub mod Retry
pub mod Store
mod Tests
use arbitrage_engine.Base.{
  ℕ, zero, suc, ◌+◌, Bool, true, false, not, ◌==◌, ltb, Option, none, some, List, [], ◌∷◌,
  if◌then◌else◌, inc64, Text, codes, length, Result, ok, thrown,
}
use arbitrage_engine.Double.{Double}
use arbitrage_engine.Core.{Exchange, BookSnapshot}
use arbitrage_engine.Dict.{lookup}
use arbitrage_engine.LocalBook.{LocalBook, is_ready, is_need_resync}
use arbitrage_engine.Live.{Live, Managers, reset_binance, reset_mexc, load_binance, load_mexc}
use arbitrage_engine.Live.Invariant.{LiveEvent, live_run}

-- The loop of `fetch_binance_snapshot_with_retries` and `fetch_mexc_snapshot_with_retries`, for what
-- each attempt gives. The first argument counts the turns that are left.
unfoldable pub fetch_loop : {S : Type 0} → ℕ → ℕ → ℕ → (ℕ → Result S) → Result S
fetch_loop zero attempt max_attempts fetch = thrown (codes "Unreachable snapshot retry state")
fetch_loop (suc left) attempt max_attempts fetch =
    let next = fetch_loop left (attempt + 1) max_attempts fetch in
    elim (fetch attempt) [
      | ok s ↦ ok s
      | thrown e ↦ if attempt == max_attempts then thrown e else next
    ]

unfoldable pub fetch_snapshot_with_retries : {S : Type 0} → ℕ → (ℕ → Result S) → Result S
fetch_snapshot_with_retries max_attempts fetch = fetch_loop max_attempts 1 max_attempts fetch

-- What happens from one look at the buffer to the next, and whether all threads have finished.
pub record Poll (W : Type 0) : Type 0 where
  pub events : List (LiveEvent W)
  pub finished : Bool

-- What an attempt meets: the looks until the deadline, the events while the snapshot is fetched, what
-- each of its requests gives, and the events from its end to the next attempt.
pub record Attempt (W : Type 0) : Type 0 where
  pub polls : List (Poll W)
  pub fetching : List (LiveEvent W)
  pub fetch : ℕ → Result (BookSnapshot W)
  pub ending : List (LiveEvent W)

module _ {W : Type 0} where
  abbrev pub managers_at : Exchange → Live W → Managers W
  managers_at Exchange.binance l = l.binance.managers
  managers_at Exchange.mexc l = l.mexc.managers

  -- `it != managers.end() && it->second.buffered_updates() > 0`
  unfoldable pub has_buffer : Exchange → Text → Live W → Bool
  has_buffer e symbol l = elim (lookup symbol (managers_at e l)) [
    | none ↦ false
    | some m ↦ ltb 0 (length m.buffer)
  ]

  -- `manager.ready()`
  unfoldable pub ready_at : Exchange → Text → Live W → Bool
  ready_at e symbol l = elim (lookup symbol (managers_at e l)) [
    | none ↦ false
    | some m ↦ is_ready m.status
  ]

  abbrev pub reset_at : Exchange → Live W → Text → Live W
  reset_at Exchange.binance = reset_binance
  reset_at Exchange.mexc = reset_mexc

  -- The counts that the scan reports at its end.
  unfoldable pub count_ready : Managers W → ℕ
  count_ready [] = 0
  count_ready ((symbol, m) ∷ ms) =
      let rest = count_ready ms in if is_ready m.status then suc rest else rest

  unfoldable pub count_need_resync : Managers W → ℕ
  count_need_resync [] = 0
  count_need_resync ((symbol, m) ∷ ms) =
      let rest = count_need_resync ms in if is_need_resync m.status then suc rest else rest

module _ {W : Type 0} ⦃d : Double W⦄ where
  abbrev pub load_at : Exchange → Live W → Text → BookSnapshot W → Live W
  load_at Exchange.binance = load_binance
  load_at Exchange.mexc = load_mexc

  -- `wait_for_binance_buffer` and `wait_for_mexc_buffer`
  unfoldable pub wait_for_buffer : Exchange → Text → List (Poll W) → Live W → Live W × Bool
  wait_for_buffer e symbol [] l = (l, false)
  wait_for_buffer e symbol (p ∷ polls) l =
      let l' = live_run l p.events in
      let rest = wait_for_buffer e symbol polls l' in
      if has_buffer e symbol l' then (l', true) else if p.finished then (l', false) else rest

  -- The `try` block: the book is loaded if the request gives a snapshot.
  unfoldable pub try_snapshot : Exchange → Text → Attempt W → Live W → Live W × Bool
  try_snapshot e symbol a l =
      let l' = live_run l a.fetching in
      elim (fetch_snapshot_with_retries 3 a.fetch) [
        | thrown error ↦ (live_run l' a.ending, false)
        | ok s ↦
            let loaded = load_at e l' symbol s in
            if ready_at e symbol loaded then (loaded, true) else (live_run loaded a.ending, false)
      ]

  abbrev pub reset_after_first : ℕ → Exchange → Text → Live W → Live W
  reset_after_first attempt e symbol l = if ltb 1 attempt then reset_at e l symbol else l

  -- One turn of the loop. After a wait in vain no snapshot is asked for.
  unfoldable pub sync_attempt : Exchange → Text → ℕ → Attempt W → Live W → Live W × Bool
  unfolding wait_for_buffer try_snapshot
  sync_attempt e symbol attempt a l =
      let waited = wait_for_buffer e symbol a.polls (reset_after_first attempt e symbol l) in
      if waited.1 then try_snapshot e symbol a waited.0 else (live_run waited.0 a.ending, false)

  -- The loop of `sync_binance_symbol` and `sync_mexc_symbol`. The first argument counts the turns left.
  unfoldable pub sync_loop : ℕ → ℕ → Exchange → Text → (ℕ → Attempt W) → Live W → Live W × Bool
  unfolding sync_attempt
  sync_loop zero attempt e symbol inputs l = (l, false)
  sync_loop (suc left) attempt e symbol inputs l =
      let tried = sync_attempt e symbol attempt (inputs attempt) l in
      let rest = sync_loop left (attempt + 1) e symbol inputs tried.0 in
      if tried.1 then (tried.0, true) else rest

  unfoldable pub sync_symbol : Exchange → Text → (ℕ → Attempt W) → Live W → Live W × Bool
  unfolding sync_loop
  sync_symbol e symbol inputs l = sync_loop 3 1 e symbol inputs l

  -- The loop over the symbols of one exchange, with its count.
  unfoldable pub sync_symbols :
      Exchange → List Text → (Text → ℕ → Attempt W) → ℕ → Live W → Live W × ℕ
  sync_symbols e [] inputs synced l = (l, synced)
  sync_symbols e (symbol ∷ symbols) inputs synced l =
      let done = sync_symbol e symbol (inputs symbol) l in
      sync_symbols e symbols inputs (if done.1 then inc64 synced else synced) done.0

  unfoldable pub sync_binance_symbol : Text → (ℕ → Attempt W) → Live W → Live W × Bool
  unfolding sync_symbol
  sync_binance_symbol symbol inputs l = sync_symbol Exchange.binance symbol inputs l

  unfoldable pub sync_mexc_symbol : Text → (ℕ → Attempt W) → Live W → Live W × Bool
  unfolding sync_symbol
  sync_mexc_symbol symbol inputs l = sync_symbol Exchange.mexc symbol inputs l
