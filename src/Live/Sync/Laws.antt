-- ===== src/Live/Sync/Laws.antt =====
-- A synchronisation is a history of critical sections, and what it leaves behind.
use arbitrage_engine.Base.{
  Result-cases, ℕ, zero, suc, ◌+◌, ◌≡◌, refl, sym, ap, ◌∙◌, inl, inr, Bool, true, List, [], ◌∷◌,
  ◌++◌, Text, Bool-cases, ltb,
}
use arbitrage_engine.Double.{Double}
use arbitrage_engine.Core.{Exchange, BookSnapshot}
use arbitrage_engine.Live.{Live}
use arbitrage_engine.Live.Invariant.{
  LiveEvent, binance_snapshot, mexc_snapshot, binance_reset, mexc_reset, live_step, live_run,
}
use arbitrage_engine.Live.Sync.{
  Poll, Attempt, has_buffer, ready_at, reset_at, load_at, fetch_snapshot_with_retries,
  wait_for_buffer, try_snapshot, reset_after_first, sync_attempt, sync_loop, sync_symbol,
}

module _ {W : Type 0} ⦃d : Double W⦄ where
  pub live_run-append :
      (l : Live W) (es fs : List (LiveEvent W))
      → live_run l (es ++ fs) ≡ live_run (live_run l es) fs
  unfolding live_run
  live_run-append l [] fs = refl
  live_run-append l (e ∷ es) fs = live_run-append (live_step l e) es fs

  -- One state comes from another by a sequence of critical sections.
  abbrev pub IsRun : Live W → Live W → Type 0
  IsRun l l' = (es : List (LiveEvent W)) × (l' ≡ live_run l es)

  pub here : (l : Live W) → IsRun l l
  unfolding live_run
  here l = ([], refl)

  pub join : (l m n : Live W) → IsRun l m → IsRun m n → IsRun l n
  join l m n (es, e) (fs, f) =
      (es ++ fs, f ∙ ap (λ x. live_run x fs) e ∙ sym (live_run-append l es fs))

  reset-IsRun : (e : Exchange) (l : Live W) (symbol : Text) → IsRun l (reset_at e l symbol)
  unfolding live_run live_step
  reset-IsRun Exchange.binance l symbol = (binance_reset symbol ∷ [], refl)
  reset-IsRun Exchange.mexc l symbol = (mexc_reset symbol ∷ [], refl)

  load-IsRun :
      (e : Exchange) (l : Live W) (symbol : Text) (s : BookSnapshot W)
      → IsRun l (load_at e l symbol s)
  unfolding live_run live_step
  load-IsRun Exchange.binance l symbol s = (binance_snapshot symbol s ∷ [], refl)
  load-IsRun Exchange.mexc l symbol s = (mexc_snapshot symbol s ∷ [], refl)

  -- The state comes by critical sections, and the book of the symbol is ready if the flag says so.
  abbrev pub IsSynced : Exchange → Text → Live W → Live W × Bool → Type 0
  IsSynced e symbol l r = IsRun l r.0 × (r.1 ≡ true → ready_at e symbol r.0 ≡ true)

  wait-IsRun :
      (e : Exchange) (symbol : Text) (polls : List (Poll W)) (l : Live W)
      → IsRun l (wait_for_buffer e symbol polls l).0
  unfolding wait_for_buffer
  wait-IsRun e symbol [] l = here l
  wait-IsRun e symbol (p ∷ polls) l =
      let l' = live_run l p.events in
      let rest = join l l' _ (p.events, refl) (wait-IsRun e symbol polls l') in
      elim (Bool-cases (has_buffer e symbol l')) [
        | inl h ↦ rw h (p.events, refl)
        | inr h ↦ elim (Bool-cases p.finished) [
          | inl f ↦ rw (h, f) (p.events, refl)
          | inr f ↦ rw (h, f) rest
        ]
      ]

  try-IsSynced :
      (e : Exchange) (symbol : Text) (a : Attempt W) (l : Live W)
      → IsSynced e symbol l (try_snapshot e symbol a l)
  unfolding try_snapshot
  try-IsSynced e symbol a l =
      let l' = live_run l a.fetching in
      elim (Result-cases (fetch_snapshot_with_retries 3 a.fetch)) [
        | inl (s, f) ↦
            let loaded = load_at e l' symbol s in
            let run = join l l' loaded (a.fetching, refl) (load-IsRun e l' symbol s) in
            elim (Bool-cases (ready_at e symbol loaded)) [
              | inl r ↦ rw (try_snapshot, f, r) (run, λ q. r)
              | inr r ↦
                  rw (try_snapshot, f, r) (join l loaded _ run (a.ending, refl), λ q. absurd (cc))
            ]
        | inr (t, f) ↦
            rw (try_snapshot, f) (join l l' _ (a.fetching, refl) (a.ending, refl), λ q. absurd (cc))
      ]

  reset_after-IsRun :
      (attempt : ℕ) (e : Exchange) (symbol : Text) (l : Live W)
      → IsRun l (reset_after_first attempt e symbol l)
  reset_after-IsRun attempt e symbol l = elim (Bool-cases (ltb 1 attempt)) [
    | inl h ↦ rw h (reset-IsRun e l symbol)
    | inr h ↦ rw h (here l)
  ]

  attempt-IsSynced :
      (e : Exchange) (symbol : Text) (attempt : ℕ) (a : Attempt W) (l : Live W)
      → IsSynced e symbol l (sync_attempt e symbol attempt a l)
  unfolding sync_attempt
  attempt-IsSynced e symbol attempt a l =
      let first = reset_after_first attempt e symbol l in
      let waited = wait_for_buffer e symbol a.polls first in
      let run =
        join l first waited.0 (reset_after-IsRun attempt e symbol l)
          (wait-IsRun e symbol a.polls first) in
      let (tried, ready) = try-IsSynced e symbol a waited.0 in
      elim (Bool-cases waited.1) [
        | inl h ↦ rw h (join l waited.0 _ run tried, ready)
        | inr h ↦ rw h (join l waited.0 _ run (a.ending, refl), λ q. absurd (cc))
      ]

  loop-IsSynced :
      (left attempt : ℕ) (e : Exchange) (symbol : Text) (inputs : ℕ → Attempt W) (l : Live W)
      → IsSynced e symbol l (sync_loop left attempt e symbol inputs l)
  unfolding sync_loop
  loop-IsSynced zero attempt e symbol inputs l = (here l, λ q. absurd (cc))
  loop-IsSynced (suc left) attempt e symbol inputs l =
      let tried = sync_attempt e symbol attempt (inputs attempt) l in
      let (run, ready) = attempt-IsSynced e symbol attempt (inputs attempt) l in
      let (rest, later) = loop-IsSynced left (attempt + 1) e symbol inputs tried.0 in
      elim (Bool-cases tried.1) [
        | inl h ↦ rw h (run, λ q. ready h)
        | inr h ↦ rw h (join l tried.0 _ run rest, later)
      ]

  -- A synchronisation changes the books only by the critical sections of `LiveEvent`, its own and those
  -- of the other threads; and if it says that it succeeded, the symbol's book is ready at its end.
  pub sync_symbol-IsSynced :
      (e : Exchange) (symbol : Text) (inputs : ℕ → Attempt W) (l : Live W)
      → IsSynced e symbol l (sync_symbol e symbol inputs l)
  unfolding sync_symbol
  sync_symbol-IsSynced e symbol inputs l = loop-IsSynced 3 1 e symbol inputs l
