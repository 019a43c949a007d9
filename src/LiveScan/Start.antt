-- ===== src/LiveScan/Start.antt =====
-- The books and the counts as the synchronisation of `run_live_arbitrage_scan` leaves them.
use arbitrage_engine.Base.{
  ℕ, ◌+◌, ◌≤◌, ◌<◌, ◌≡◌, sym, subst, inl, inr, List, [], ◌∷◌, arith, Text, length, inc64, u64_mod,
  Bool-cases, if◌then◌else◌,
}
use arbitrage_engine.Double.{Double}
use arbitrage_engine.Core.{Exchange}
use arbitrage_engine.Live.{Live, make_live}
use arbitrage_engine.Live.Invariant.{IsLive, live_run-make-IsLive}
use arbitrage_engine.Live.Sync.{Attempt, sync_symbol, sync_symbols}
use arbitrage_engine.Live.Sync.Laws.{IsRun, here, join, sync_symbol-IsSynced}

module _ {W : Type 0} ⦃d : Double W⦄ where
  pub sync_symbols-IsRun :
      (e : Exchange) (symbols : List Text) (inputs : Text → ℕ → Attempt W) (n : ℕ) (l : Live W)
      → IsRun l (sync_symbols e symbols inputs n l).0
  unfolding sync_symbols
  sync_symbols-IsRun e [] inputs n l = here l
  sync_symbols-IsRun e (symbol ∷ symbols) inputs n l =
      let done = sync_symbol e symbol (inputs symbol) l in
      join l done.0 _ (sync_symbol-IsSynced e symbol (inputs symbol) l).0
        (sync_symbols-IsRun e symbols inputs (if done.1 then inc64 n else n) done.0)

  pub sync_symbols_bound :
      (e : Exchange) (symbols : List Text) (inputs : Text → ℕ → Attempt W) (n : ℕ) (l : Live W)
      → n + length symbols < u64_mod
      → (sync_symbols e symbols inputs n l).1 ≤ n + length symbols
  unfolding sync_symbols
  sync_symbols_bound e [] inputs n l h = omega arith
  sync_symbols_bound e (symbol ∷ symbols) inputs n l h =
      let done = sync_symbol e symbol (inputs symbol) l in
      elim (Bool-cases done.1) [
        | inl t ↦
            let next : inc64 n ≡ n + 1 = omega (arith, h) in
            rw (sync_symbols, t, next)
              (omega (arith, sync_symbols_bound e symbols inputs (n + 1) done.0 (omega (arith, h))))
        | inr t ↦
            rw (sync_symbols, t)
              (omega (arith, sync_symbols_bound e symbols inputs n done.0 (omega (arith, h))))
      ]

  pub run_live : (symbols : List Text) (l : Live W) → IsRun (make_live symbols) l → IsLive l
  run_live symbols l (es, q) = subst IsLive (sym q) (live_run-make-IsLive symbols es)
