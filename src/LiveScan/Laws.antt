-- ===== src/LiveScan/Laws.antt =====
-- What a run of the live scan reports.
use arbitrage_engine.Base.{
  ℕ, true, false, ltb, ◌++◌, ◌+◌, ◌≤◌, ◌<◌, ◌≡◌, refl, Option, none, some, List, [], ◌∷◌, arith,
  Text, All, length, u64_mod, ok,
}
use arbitrage_engine.Double.{Double, IsOrdered}
use arbitrage_engine.Core.{Exchange}
use arbitrage_engine.Config.{Config}
use arbitrage_engine.Planner.{Group}
use arbitrage_engine.Endpoint.{Endpoint}
use arbitrage_engine.MarketData.{Store, get_book}
use arbitrage_engine.Dict.{lookup}
use arbitrage_engine.Spread.{make_arbitrage_settings}
use arbitrage_engine.Spread.Laws.{configured}
use arbitrage_engine.Engine.Termination.{HasRank}
use arbitrage_engine.Engine.Scan.{enough}
use arbitrage_engine.Scan
use arbitrage_engine.Scan.{scan_live_store_once}
use arbitrage_engine.Scan.Laws.{count_pairs, IsReport, scan_live_store_once-IsReport}
use arbitrage_engine.Live.{Live, make_live}
use arbitrage_engine.Live.Invariant.{live_run}
use arbitrage_engine.Live.Export.{managers_of, ready_or, get_book-live_store}
use arbitrage_engine.Live.Sync.{sync_symbols}
use arbitrage_engine.Live.Sync.Laws.{IsRun, join}
use arbitrage_engine.LocalLiveAll.{endpoints}
use arbitrage_engine.LiveScan.{
  Turn, sync_all, report_of, Inputs, Report, stopped, store_of, scan_loop, run_scans,
  run_live_arbitrage_scan,
}
use arbitrage_engine.LiveScan.Start.{sync_symbols-IsRun, sync_symbols_bound, run_live}

module _ {W : Type 0} ⦃d : Double W⦄ where
  module _ (config : Config W) where
    -- The scan finishes, and what it reports is of a store that has the books that are ready and no other.
    pub record IsScan (l : Live W) (scan : Option (Scan.Report W)) : Type 0 where
      pub store : Store W
      pub stored :
          (e : Exchange) (symbol : Text)
          → get_book store e symbol ≡ ready_or (lookup symbol (managers_of l e)) none
      pub report : Scan.Report W
      pub finished : scan ≡ some report
      pub shows :
          IsReport config (configured config) store (count_pairs store config.symbols) report

    -- Where a turn that scans leaves the books.
    abbrev pub after_turn : Live W → Turn W → Live W
    after_turn l t = live_run (live_run l t.before) t.slept

    abbrev pub after_turns : Live W → List (Turn W) → Live W
    after_turns l [] = l
    after_turns l (t ∷ turns) = after_turns (after_turn l t) turns

    -- One scan for each of the turns, each of the books as they are at its own turn.
    abbrev pub IsScans : Live W → List (Turn W) → List (Option (Scan.Report W)) → Type 0
    IsScans l [] [] = Unit
    IsScans l [] (scan ∷ scans) = ⊥
    IsScans l (t ∷ turns) [] = ⊥
    IsScans l (t ∷ turns) (scan ∷ scans) =
        IsScan (after_turn l t) scan × IsScans (after_turn l t) turns scans

    -- The scans are those of the turns before the last, from the books as the synchronisation leaves them; the
    -- final store has the books that are ready at the end and no other; no more symbols are counted as
    -- synced than there are.
    pub record IsReported (turns : List (Turn W)) (last : Turn W) (r : Report W) : Type 0 where
      pub synced : Live W
      pub reached : IsRun (make_live config.symbols) synced
      pub scanned : IsScans synced turns r.scans
      pub ended : r.live ≡ live_run (after_turns synced turns) last.before
      pub stored :
          (e : Exchange) (symbol : Text)
          → get_book r.final_store e symbol ≡ ready_or (lookup symbol (managers_of r.live e)) none
      pub binance_bound : r.binance_synced ≤ length config.symbols
      pub mexc_bound : r.mexc_synced ≤ length config.symbols

    after_turns-IsRun :
        (turns : List (Turn W)) (l : Live W)
        → IsRun (make_live config.symbols) l
        → IsRun (make_live config.symbols) (after_turns l turns)
    after_turns-IsRun [] l run = run
    after_turns-IsRun (t ∷ turns) l run =
        let l1 = live_run l t.before in
        let first = join (make_live config.symbols) l l1 run (t.before, refl) in
        after_turns-IsRun turns (live_run l1 t.slept)
          (join (make_live config.symbols) l1 (live_run l1 t.slept) first (t.slept, refl))

  -- The turn finds that a thread still runs.
  abbrev pub IsBusy : ℕ → Turn W → Type 0
  IsBusy total t = t.finished < total

  module _ (config : Config W) (ordered : IsOrdered W) (ranked : HasRank W) (fuel : ℕ)
      (most : enough ranked (configured config) ≤ fuel) where
    stored_at :
        (l : Live W)
        → IsRun (make_live config.symbols) l
        → (e : Exchange) (symbol : Text)
        → get_book (store_of l) e symbol ≡ ready_or (lookup symbol (managers_of l e)) none
    stored_at l run e symbol =
        let live = run_live config.symbols l run in get_book-live_store l e symbol live.0.1 live.1.1

    scan_live_store_once-IsScan :
        (l : Live W)
        → IsRun (make_live config.symbols) l
        → IsScan config l
            (scan_live_store_once fuel config (make_arbitrage_settings config) (store_of l))
    unfolding make_arbitrage_settings
    scan_live_store_once-IsScan l run =
        let (r, (e, h)) =
          scan_live_store_once-IsReport config (configured config) (store_of l) ordered ranked fuel
            most in
        record { store = store_of l; stored = stored_at l run; report = r; finished = e; shows = h }

    -- Turns that find a thread running are scanned, and the first that does not ends the loop.
    loop-IsScans :
        (total : ℕ) (turns rest : List (Turn W)) (last : Turn W) (l : Live W)
        → IsRun (make_live config.symbols) l
        → All (IsBusy total) turns
        → total ≤ last.finished
        → let loop = scan_loop fuel config total (turns ++ (last ∷ rest)) l in
          IsScans config l turns loop.scans
          × (loop.live ≡ live_run (after_turns config l turns) last.before)
          × (loop.left ≡ true)
    unfolding scan_loop
    loop-IsScans total [] rest last l run busy done =
        let test : ltb last.finished total ≡ false = ground (arith, done) in
        rw test (tt, refl, refl)
    loop-IsScans total (t ∷ turns) rest last l run (b, busy) done =
        let test : ltb t.finished total ≡ true = ground (arith, b) in
        let l1 = live_run l t.before in
        let first = join (make_live config.symbols) l l1 run (t.before, refl) in
        let now = join (make_live config.symbols) l1 (live_run l1 t.slept) first (t.slept, refl) in
        let (scans, live, left) =
          loop-IsScans total turns rest last (live_run l1 t.slept) now busy done in
        rw test ((scan_live_store_once-IsScan (live_run l1 t.slept) now, scans), live, left)

    sync_all_lem :
        (inputs : Inputs W)
        → length config.symbols < u64_mod
        → let (l, binance_synced, mexc_synced) = sync_all config inputs in
          IsRun (make_live config.symbols) l
          × (binance_synced ≤ length config.symbols)
          × (mexc_synced ≤ length config.symbols)
    unfolding sync_all
    sync_all_lem inputs l =
        let start = make_live {W = W} config.symbols in
        let first = sync_symbols Exchange.binance config.symbols inputs.binance 0 start in
        let second = sync_symbols Exchange.mexc config.symbols inputs.mexc 0 first.0 in
        (
          join start first.0 second.0
              (sync_symbols-IsRun Exchange.binance config.symbols inputs.binance 0 start)
              (sync_symbols-IsRun Exchange.mexc config.symbols inputs.mexc 0 first.0),
          omega (
            arith,
            sync_symbols_bound Exchange.binance config.symbols inputs.binance 0 start
                (omega (arith, l)),
          ),
          omega (
            arith,
            sync_symbols_bound Exchange.mexc config.symbols inputs.mexc 0 first.0
                (omega (arith, l)),
          ),
        )

    run_scans-IsReported :
        (total : ℕ) (inputs : Inputs W) (turns rest : List (Turn W)) (last : Turn W)
        → inputs.turns ≡ turns ++ (last ∷ rest)
        → All (IsBusy total) turns
        → total ≤ last.finished
        → inputs.ws_exception ≡ none
        → length config.symbols < u64_mod
        → (r : Report W) × ((run_scans fuel config total inputs ≡ stopped r)
            × IsReported config turns last r)
    unfolding run_scans report_of
    run_scans-IsReported total inputs turns rest last q busy done x l =
        let (run, binance_bound, mexc_bound) = sync_all_lem inputs l in
        let (synced, binance_synced, mexc_synced) = sync_all config inputs in
        let loop = scan_loop fuel config total (turns ++ (last ∷ rest)) synced in
        let (scans, live, left) = loop-IsScans total turns rest last synced run busy done in
        let all =
          join (make_live config.symbols) (after_turns config synced turns) loop.live
            (after_turns-IsRun config turns synced run) (last.before, live) in
        (
          report_of binance_synced mexc_synced loop,
          (
            rw (run_scans, q, left, x) refl,
            record {
              synced = synced;
              reached = run;
              scanned = scans;
              ended = live;
              stored = stored_at loop.live all;
              binance_bound = binance_bound;
              mexc_bound = mexc_bound;
            },
          ),
        )

    -- With groups of both exchanges, an endpoint for each group, no exception of a thread, enough fuel for the
    -- engine and fewer than 2^64 symbols, a run of the live scan ends with its report at the first turn of
    -- its loop that finds as many threads finished as there are groups. There is one scan for each turn
    -- before, which finishes and is of a store with the books that are ready at that turn and no other; the
    -- final store has the books that are ready at the end and no other; and no more symbols are counted as
    -- synced than there are.
    pub run_live_arbitrage_scan-IsReported :
        (g h : Group) (gs hs : List Group) (inputs : Inputs W) (binance mexc : List Endpoint)
        (turns rest : List (Turn W)) (last : Turn W)
        → endpoints Exchange.binance config (g ∷ gs) ≡ ok binance
        → endpoints Exchange.mexc config (h ∷ hs) ≡ ok mexc
        → inputs.turns ≡ turns ++ (last ∷ rest)
        → All (IsBusy (length (g ∷ gs) + length (h ∷ hs))) turns
        → length (g ∷ gs) + length (h ∷ hs) ≤ last.finished
        → inputs.ws_exception ≡ none
        → length config.symbols < u64_mod
        → (r : Report W) × ((run_live_arbitrage_scan fuel config (g ∷ gs) (h ∷ hs) inputs
              ≡ stopped r)
            × IsReported config turns last r)
    unfolding run_live_arbitrage_scan
    run_live_arbitrage_scan-IsReported g h gs hs inputs binance mexc turns rest last p q s busy done
          x l =
        let (r, (e, k)) =
          run_scans-IsReported (length (g ∷ gs) + length (h ∷ hs)) inputs turns rest last s busy
            done x l in
        (r, (rw (run_live_arbitrage_scan, p, q) e, k))
