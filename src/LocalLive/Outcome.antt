-- ===== src/LocalLive/Outcome.antt =====
-- How the synchronisation of one local book ends.
use arbitrage_engine.Base.{
  ℕ, zero, suc, ◌+◌, ◌<◌, ◌≡◌, ◌⊎◌, inl, inr, refl, ap, subst, ◌∙◌, true, ltb, none, some, List, [],
  ◌∷◌, arith, length, Text, thrown, Result-cases, Bool-cases,
}
use arbitrage_engine.Double.{Double}
use arbitrage_engine.Core.{Exchange, BookUpdate, BookSnapshot}
use arbitrage_engine.LocalBook.{
  LocalBook, Status, UpdateResult, push_buffer, on_update, apply_snapshot, reset, make,
}
use arbitrage_engine.LocalBook.Outcome.{load_snapshot-Answers}
use arbitrage_engine.LocalBook.Binance
use arbitrage_engine.LocalBook.Mexc
use arbitrage_engine.LocalLive.{
  Run, Messages, Poll, Attempt, Ended, synced, unsynced, escaped, Tried, done, again, failed,
  is_applied, new_run, tally, reset_run, on_message, on_messages, wait_for_buffered_updates,
  try_snapshot, reset_before, sync_attempt, sync_loop, sync_local_live,
}

next : (first before : ℕ) → first + 1 + before ≡ first + suc before
next first before = omega arith

pub new_run_waiting :
    (W : Type 0) (e : Exchange) (symbol : Text)
    → (new_run {W = W} e symbol).manager.status ≡ Status.waiting_for_snapshot
unfolding new_run Binance.make Mexc.make make
new_run_waiting W Exchange.binance symbol = refl
new_run_waiting W Exchange.mexc symbol = refl

module _ {W : Type 0} ⦃d : Double W⦄ (e : Exchange) where
  abbrev pub Waits : Run W → Type 0
  Waits r = r.manager.status ≡ Status.waiting_for_snapshot

  pub tally_manager : (result : UpdateResult) (r : Run W) → (tally result r).manager ≡ r.manager
  unfolding tally
  tally_manager UpdateResult.buffered r = refl
  tally_manager UpdateResult.applied r = refl
  tally_manager UpdateResult.gap_detected r = refl
  tally_manager UpdateResult.snapshot_applied r = refl
  tally_manager UpdateResult.snapshot_rejected r = refl
  tally_manager UpdateResult.ignored_stale r = refl
  tally_manager UpdateResult.not_for_symbol r = refl

  on_update-waiting :
      (m : LocalBook W) (u : BookUpdate W)
      → m.status ≡ Status.waiting_for_snapshot
      → (on_update e m u).0.status ≡ Status.waiting_for_snapshot
  unfolding on_update push_buffer
  on_update-waiting m u h = ground (arith, h)

  -- While the book waits, messages leave it waiting.
  on_messages-Waits : (us : Messages W) (r : Run W) → Waits r → Waits (on_messages e r us)
  unfolding on_messages on_message
  on_messages-Waits [] r h = h
  on_messages-Waits (none ∷ us) r h = on_messages-Waits us _ h
  on_messages-Waits (some u ∷ us) r h =
      on_messages-Waits us _
        (ap (λ (m : LocalBook W). m.status) (tally_manager _ _) ∙ on_update-waiting r.manager u h)

  wait-Waits :
      (polls : List (Poll W)) (r : Run W) → Waits r → Waits (wait_for_buffered_updates e polls r).0
  unfolding wait_for_buffered_updates
  wait-Waits [] r h = h
  wait-Waits (p ∷ polls) r h =
      let r' = on_messages e r p.messages in
      let k = on_messages-Waits p.messages r h in
      let rest = wait-Waits polls r' k in
      elim (Bool-cases (ltb 0 (length r'.manager.buffer))) [
        | inl q ↦ rw (wait_for_buffered_updates, q) k
        | inr q ↦ elim (Bool-cases p.finished) [
          | inl f ↦ rw (wait_for_buffered_updates, q, f) k
          | inr f ↦ rw (wait_for_buffered_updates, q, f) rest
        ]
      ]

  pub ready_applied :
      (m : LocalBook W) (s : BookSnapshot W)
      → m.status ≡ Status.waiting_for_snapshot
      → (apply_snapshot e m s).0.status ≡ Status.ready
      → is_applied (apply_snapshot e m s).1 ≡ true
  unfolding apply_snapshot
  ready_applied m s w h = ground (arith, load_snapshot-Answers m s, h, w)

  applied_ready :
      (m : LocalBook W) (s : BookSnapshot W)
      → is_applied (apply_snapshot e m s).1 ≡ true
      → (apply_snapshot e m s).0.status ≡ Status.ready
  unfolding apply_snapshot
  applied_ready m s h = ground (arith, load_snapshot-Answers m s, h)

  -- The attempt succeeds with a ready book, or fails with a book that waits.
  abbrev pub TriedWell : Attempt W → Run W × Tried → Type 0
  TriedWell a out =
      ((out.1 ≡ done) × (out.0.manager.status ≡ Status.ready))
      ⊎ (((out.1 ≡ again) × Waits out.0)
          ⊎ ((t : Text) × ((out.1 ≡ failed t) × ((a.snapshot ≡ thrown t) × Waits out.0))))

  try-TriedWell : (a : Attempt W) (r : Run W) → Waits r → TriedWell a (try_snapshot e a r)
  unfolding try_snapshot reset_run reset
  try-TriedWell a r h =
      let r' = on_messages e r a.fetching in
      elim (Result-cases a.snapshot) [
        | inr (t, q) ↦
            rw (try_snapshot, q) (inr (inr (t, (refl, (refl, on_messages-Waits a.fetching r h)))))
        | inl (s, q) ↦ elim (Bool-cases (is_applied (apply_snapshot e r'.manager s).1)) [
          | inl k ↦ rw (try_snapshot, q, k) (inl (refl, applied_ready r'.manager s k))
          | inr k ↦ rw (try_snapshot, q, k) (inr (inl (refl, on_messages-Waits a.ending _ refl)))
        ]
      ]

  reset_before-Waits : (attempt : ℕ) (r : Run W) → Waits r → Waits (reset_before attempt r)
  unfolding reset_run reset
  reset_before-Waits attempt r h = ground (arith, h)

  attempt-TriedWell :
      (attempt : ℕ) (a : Attempt W) (r : Run W) → Waits r → TriedWell a (sync_attempt e attempt a r)
  unfolding sync_attempt
  attempt-TriedWell attempt a r h =
      let waited = wait_for_buffered_updates e a.polls (reset_before attempt r) in
      let k = wait-Waits a.polls (reset_before attempt r) (reset_before-Waits attempt r h) in
      elim (Bool-cases waited.1) [
        | inl q ↦ rw q (try-TriedWell a waited.0 k)
        | inr q ↦ rw q (inr (inl (refl, on_messages-Waits a.ending waited.0 k)))
      ]

  -- `count` attempts in a row, the first with the number `first`, each asking for another.
  abbrev pub Repeats : (ℕ → Attempt W) → ℕ → ℕ → Run W → Run W → Type 0
  Repeats inputs zero first r r' = r' ≡ r
  Repeats inputs (suc count) first r r' =
      ((sync_attempt e first (inputs first) r).1 ≡ again)
      × Repeats inputs count (first + 1) (sync_attempt e first (inputs first) r).0 r'

  -- The attempt that ends the loop: those before it ask for another, and it is one of the `count` that
  -- are allowed.
  pub record LastAttempt (inputs : ℕ → Attempt W) (count first : ℕ) (start end : Run W) (t : Tried)
      : Type 0 where
    pub before : ℕ
    pub allowed : before < count
    pub reached : Run W
    pub repeated : Repeats inputs before first start reached
    pub tried : sync_attempt e (first + before) (inputs (first + before)) reached ≡ (end, t)

  pub data EndsWell (inputs : ℕ → Attempt W) (count first : ℕ) (start : Run W) (out : Run W × Ended)
      : Type 0 where
    succeeds :
        out.1 ≡ synced
        → LastAttempt inputs count first start out.0 done
        → out.0.manager.status ≡ Status.ready
        → EndsWell inputs count first start out
    gives_up :
        out.1 ≡ unsynced
        → Repeats inputs count first start out.0
        → Waits out.0
        → EndsWell inputs count first start out
    throws :
        (t : Text)
        → out.1 ≡ escaped t
        → (k : LastAttempt inputs count first start out.0 (failed t))
        → (inputs (first + k.before)).snapshot ≡ thrown t
        → Waits out.0
        → EndsWell inputs count first start out

  first_attempt :
      (inputs : ℕ → Attempt W) (left first : ℕ) (start end : Run W) (t : Tried)
      → sync_attempt e first (inputs first) start ≡ (end, t)
      → LastAttempt inputs (suc left) first start end t
  first_attempt inputs left first start end t h = record {
    before = 0;
    allowed = omega arith;
    reached = start;
    repeated = refl;
    tried = let q : first + 0 ≡ first = omega arith in rw q h;
  }

  later_attempt :
      (inputs : ℕ → Attempt W) (left first : ℕ) (start end : Run W) (t : Tried)
      → (sync_attempt e first (inputs first) start).1 ≡ again
      → LastAttempt inputs left (first + 1) (sync_attempt e first (inputs first) start).0 end t
      → LastAttempt inputs (suc left) first start end t
  later_attempt inputs left first start end t q k = record {
    before = suc k.before;
    allowed = omega (arith, k.allowed);
    reached = k.reached;
    repeated = (q, k.repeated);
    tried =
        subst (λ n. sync_attempt e n (inputs n) k.reached ≡ (end, t)) (next first k.before) k.tried;
  }

  later :
      (inputs : ℕ → Attempt W) (left first : ℕ) (start : Run W) (out : Run W × Ended)
      → (sync_attempt e first (inputs first) start).1 ≡ again
      → EndsWell inputs left (first + 1) (sync_attempt e first (inputs first) start).0 out
      → EndsWell inputs (suc left) first start out
  unfolding later_attempt
  later inputs left first start out q (succeeds r k h) =
      succeeds r (later_attempt inputs left first start out.0 done q k) h
  later inputs left first start out q (gives_up r k h) = gives_up r (q, k) h
  later inputs left first start out q (throws t r k f h) =
      throws t r (later_attempt inputs left first start out.0 (failed t) q k)
        (subst (λ n. (inputs n).snapshot ≡ thrown t) (next first k.before) f) h

  loop-EndsWell :
      (left first : ℕ) (inputs : ℕ → Attempt W) (r : Run W)
      → Waits r
      → EndsWell inputs left first r (sync_loop e left first inputs r)
  unfolding sync_loop first_attempt
  loop-EndsWell zero first inputs r h = gives_up refl refl h
  loop-EndsWell (suc left) first inputs r h =
      let tried = sync_attempt e first (inputs first) r in
      elim (attempt-TriedWell first (inputs first) r h) [
        | inl (q, k) ↦
            rw (sync_loop, q)
              (succeeds refl
                (first_attempt inputs left first r tried.0 done (ap (λ t. (tried.0, t)) q)) k)
        | inr (inl (q, k)) ↦
            rw (sync_loop, q)
              (later inputs left first r (sync_loop e left (first + 1) inputs tried.0) q
                (loop-EndsWell left (first + 1) inputs tried.0 k))
        | inr (inr (t, (q, (f, k)))) ↦
            rw (sync_loop, q)
              (throws t refl
                (first_attempt inputs left first r tried.0 (failed t) (ap (λ t. (tried.0, t)) q))
                (let n : first + 0 ≡ first = omega arith in rw n f) k)
      ]

  -- Whatever the thread receives meanwhile, the synchronisation makes at most three attempts, numbered from
  -- 1, each from the run that the one before has left, and ends in one of three ways: one of them is
  -- done, and then it says that it succeeded and the book is ready; all three ask for another, and then
  -- it gives up and the book waits for a snapshot; or the request of one of them throws, and this leaves
  -- the function while the book waits.
  pub sync_local_live-EndsWell :
      (symbol : Text) (inputs : ℕ → Attempt W)
      → EndsWell inputs 3 1 (new_run e symbol) (sync_local_live e symbol inputs)
  unfolding sync_local_live
  sync_local_live-EndsWell symbol inputs =
      loop-EndsWell 3 1 inputs (new_run e symbol) (new_run_waiting W e symbol)
