-- ===== src/LiveScan.antt =====
-- src/main.cpp, `run_live_arbitrage_scan` as one function: the local books of both exchanges are synchronised
-- symbol by symbol while the threads run, and then scanned every two seconds until all threads have
-- finished. What the threads do between two critical sections of the main thread is a list of events. When
-- a thread finishes is up to it, its `max_messages` and the network (Live/Handler.antt): here the counter
-- of finished threads is read in each turn, and a run whose turns do not reach the count is still scanning.
pub mod Start
pub mod Laws
mod Tests
use arbitrage_engine.Base.{
  ℕ, Bool, true, false, ltb, if◌then◌else◌, length, ◌+◌, Option, none, some, List, [], ◌∷◌, Text,
  Result, ok, thrown,
}
use arbitrage_engine.Double.{Double}
use arbitrage_engine.Core.{Exchange}
use arbitrage_engine.Config.{Config}
use arbitrage_engine.Planner.{Group}
use arbitrage_engine.Endpoint.{Endpoint}
use arbitrage_engine.MarketData.{Store}
use arbitrage_engine.Spread.{make_arbitrage_settings}
use arbitrage_engine.Scan
use arbitrage_engine.Scan.{scan_live_store_once}
use arbitrage_engine.Live.{Live, make_live, build_live_store_from_managers}
use arbitrage_engine.Live.Invariant.{LiveEvent, live_run}
use arbitrage_engine.Live.Sync.{Attempt, sync_symbols, count_ready, count_need_resync}
use arbitrage_engine.LocalLiveAll.{endpoints}

-- A turn of the loop of the scans: what the threads do before its test, `finished_ws_threads` as the test
-- reads it, and what the threads do while the turn sleeps.
pub record Turn (W : Type 0) : Type 0 where
  pub before : List (LiveEvent W)
  pub finished : ℕ
  pub slept : List (LiveEvent W)

-- What the symbols of each exchange meet, the turns of the loop, and what the first thread that failed threw.
pub record Inputs (W : Type 0) : Type 0 where
  pub binance : Text → ℕ → Attempt W
  pub mexc : Text → ℕ → Attempt W
  pub turns : List (Turn W)
  pub ws_exception : Option Text

-- A scan is `none` if the engine's fuel runs out.
pub record Report (W : Type 0) : Type 0 where
  pub binance_synced : ℕ
  pub mexc_synced : ℕ
  pub scans : List (Option (Scan.Report W))
  pub live : Live W
  pub binance_ready : ℕ
  pub mexc_ready : ℕ
  pub binance_need_resync : ℕ
  pub mexc_need_resync : ℕ
  pub final_store : Store W

-- How the function ends: without a group of either exchange it returns; an exception leaves it; or, where an
-- exception meets threads that still run, the program is ended by `std::terminate`. `scanning` is a run that
-- is in its loop after the given turns, with the scans so far.
pub data Ending (W : Type 0) : Type 0 where
  idle : Ending W
  escaped terminated : Text → Ending W
  stopped : Report W → Ending W
  scanning : List (Option (Scan.Report W)) → Ending W

-- The loop of the scans after some turns: where the books are, the scans, and whether the test has left it.
pub record Loop (W : Type 0) : Type 0 where
  pub live : Live W
  pub scans : List (Option (Scan.Report W))
  pub left : Bool

module _ {W : Type 0} where
  abbrev pub store_of : Live W → Store W
  store_of l = build_live_store_from_managers l.binance.managers l.mexc.managers

  -- The threads have ended.
  abbrev pub conclude : Option Text → Report W → Ending W
  conclude none r = stopped r
  conclude (some t) r = escaped t

module _ {W : Type 0} ⦃d : Double W⦄ where
  -- The loop of the scans, for `total_ws_threads`. When the test leaves it all threads have finished, and
  -- the books stay as they are.
  unfoldable pub scan_loop : ℕ → Config W → ℕ → List (Turn W) → Live W → Loop W
  scan_loop fuel config total [] l = record { live = l; scans = []; left = false }
  scan_loop fuel config total (t ∷ turns) l =
      let l1 = live_run l t.before in
      let l2 = live_run l1 t.slept in
      let rest = scan_loop fuel config total turns l2 in
      if ltb t.finished total
      then record rest {
        scans =
            scan_live_store_once fuel config (make_arbitrage_settings config) (store_of l2)
            ∷ rest.scans;
      }
      else record { live = l1; scans = []; left = true }

  -- The synchronisation of all symbols, with the two counts of those that are synced.
  unfoldable pub sync_all : Config W → Inputs W → Live W × ℕ × ℕ
  sync_all config inputs =
      let (l1, binance_synced) =
        sync_symbols Exchange.binance config.symbols inputs.binance 0 (make_live config.symbols) in
      let (l2, mexc_synced) = sync_symbols Exchange.mexc config.symbols inputs.mexc 0 l1 in
      (l2, binance_synced, mexc_synced)

  -- The report after the threads are joined.
  unfoldable pub report_of : ℕ → ℕ → Loop W → Report W
  report_of binance_synced mexc_synced loop = record {
    binance_synced = binance_synced;
    mexc_synced = mexc_synced;
    scans = loop.scans;
    live = loop.live;
    binance_ready = count_ready loop.live.binance.managers;
    mexc_ready = count_ready loop.live.mexc.managers;
    binance_need_resync = count_need_resync loop.live.binance.managers;
    mexc_need_resync = count_need_resync loop.live.mexc.managers;
    final_store = store_of loop.live;
  }

  -- From the start of the threads to the end.
  unfoldable pub run_scans : ℕ → Config W → ℕ → Inputs W → Ending W
  unfolding scan_loop sync_all report_of
  run_scans fuel config total inputs =
      let (l, binance_synced, mexc_synced) = sync_all config inputs in
      let loop = scan_loop fuel config total inputs.turns l in
      if loop.left
      then conclude inputs.ws_exception (report_of binance_synced mexc_synced loop)
      else scanning loop.scans

  -- The endpoint of the first group fails if one of its exchange fails, since only the base URL decides.
  unfoldable pub run_live_arbitrage_scan :
      ℕ → Config W → List Group → List Group → Inputs W → Ending W
  unfolding run_scans
  run_live_arbitrage_scan fuel config [] mexc_groups inputs = idle
  run_live_arbitrage_scan fuel config (g ∷ gs) [] inputs = idle
  run_live_arbitrage_scan fuel config (g ∷ gs) (h ∷ hs) inputs =
      elim (endpoints Exchange.binance config (g ∷ gs)) [
        | thrown t ↦ escaped t
        | ok binance ↦ elim (endpoints Exchange.mexc config (h ∷ hs)) [
          | thrown t ↦ terminated t
          | ok mexc ↦ run_scans fuel config (length (g ∷ gs) + length (h ∷ hs)) inputs
        ]
      ]
