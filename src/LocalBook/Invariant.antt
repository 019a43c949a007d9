-- ===== src/LocalBook/Invariant.antt =====
-- The invariant of a local book, over any history of calls.
use arbitrage_engine.Base.{
  ℕ, ◌+◌, ◌≤◌, ◌≡◌, inl, inr, refl, true, false, List, [], ◌∷◌, ◌++◌, arith, All, ltb, length,
  Bool-cases, Text, drop, length-append, All-append,
}
use arbitrage_engine.Double.{Double}
use arbitrage_engine.Core.{Exchange, BookUpdate, BookSnapshot}
use arbitrage_engine.OrderBook
use arbitrage_engine.OrderBook.{OrderBook, empty_book}
use arbitrage_engine.LocalBook.{
  LocalBook, make, reset, push_buffer, bridge, load_snapshot, on_update, apply_snapshot, is_waiting,
  apply_update_to_ready_book,
}
use arbitrage_engine.LocalBook.Replay.{
  Outcome, fresh, drop_stale-fresh, replay_buffer-Keeps, Replayed, finished, stopped,
  replay_buffer-Replayed,
}

module _ {W : Type 0} where
  drop_one-All {κ} :
      (P : BookUpdate W → Type κ) (us : List (BookUpdate W)) → All P us → All P (drop 1 us)
  drop_one-All P [] h = tt
  drop_one-All P (u ∷ us) h = h.1

  length-drop_one : (us : List (BookUpdate W)) (n : ℕ) → length us ≤ n + 1 → length (drop 1 us) ≤ n
  length-drop_one [] n h = omega arith
  length-drop_one (u ∷ us) n h = omega arith

  pub push_buffer_lem :
      (m : LocalBook W) (u : BookUpdate W)
      → length m.buffer ≤ m.max_buffered_updates
      → let m' = push_buffer m u in
        (length m'.buffer ≤ m.max_buffered_updates)
        × (m'.stats.buffered_updates ≡ length m'.buffer)
        × (m'.max_buffered_updates ≡ m.max_buffered_updates)
        × (m'.symbol ≡ m.symbol)
        × (m'.status ≡ m.status)
        × (m'.book ≡ m.book)
  unfolding push_buffer
  push_buffer_lem m u h =
      let pushed = m.buffer ++ (u ∷ []) in
      let grows = length-append m.buffer (u ∷ []) in
      ground (arith, grows, length-drop_one pushed m.max_buffered_updates)

  pub push_buffer-All {κ} :
      (P : BookUpdate W → Type κ) (m : LocalBook W) (u : BookUpdate W)
      → All P m.buffer
      → P u
      → All P (push_buffer m u).buffer
  unfolding push_buffer
  push_buffer-All P m u h p =
      let pushed = All-append P m.buffer (u ∷ []) h (p, tt) in
      elim (Bool-cases (ltb m.max_buffered_updates (length (m.buffer ++ (u ∷ []))))) [
        | inl e ↦ rw e (drop_one-All P (m.buffer ++ (u ∷ [])) pushed)
        | inr e ↦ rw e pushed
      ]

  -- The counter shows the buffer's size, which the limit bounds; outside the wait for a snapshot the
  -- buffer is empty and the book is loaded, and during the wait the book is empty.
  pub record IsConsistent (m : LocalBook W) : Type 0 where
    pub counted : m.stats.buffered_updates ≡ length m.buffer
    pub bounded : length m.buffer ≤ m.max_buffered_updates
    pub idle : is_waiting m.status ≡ false → m.buffer ≡ []
    pub loaded : is_waiting m.status ≡ false → m.book.initialized ≡ true
    pub untouched : is_waiting m.status ≡ true → m.book ≡ empty_book

  pub make-IsConsistent : (symbol : Text) (max : ℕ) → IsConsistent (make {W = W} symbol max)
  unfolding make
  make-IsConsistent symbol max = ground arith

  pub reset-IsConsistent : (m : LocalBook W) → IsConsistent (reset m)
  unfolding reset
  reset-IsConsistent m = ground arith

-- The calls that change a local book.
pub data Event (W : Type 0) : Type 0 where
  update : BookUpdate W → Event W
  snapshot : BookSnapshot W → Event W
  restart : Event W

module _ {W : Type 0} ⦃d : Double W⦄ where
  ready-IsConsistent :
      (m : LocalBook W) (u : BookUpdate W)
      → IsConsistent m
      → is_waiting m.status ≡ false
      → IsConsistent (apply_update_to_ready_book m u).0
  unfolding apply_update_to_ready_book OrderBook.apply_update
  ready-IsConsistent m u c e = ground arith

  abbrev pub Settled : LocalBook W → LocalBook W → Type 0
  Settled m m' =
      (m'.buffer ≡ [])
      × (m'.stats.buffered_updates ≡ 0)
      × (m'.book.initialized ≡ true)
      × (m'.symbol ≡ m.symbol)
      × (m'.max_buffered_updates ≡ m.max_buffered_updates)
      × (is_waiting m'.status ≡ false)

  Replayed-not_waiting :
      {m : LocalBook W} {us : List (BookUpdate W)} {out : Outcome W}
      → Replayed m us out
      → is_waiting out.0.status ≡ false
  Replayed-not_waiting (finished r s b) = rw s
  Replayed-not_waiting (stopped r s) = rw s

  bridge-Settled :
      (last : ℕ) (us : List (BookUpdate W)) (m : LocalBook W)
      → m.buffer ≡ us
      → m.stats.buffered_updates ≡ length us
      → m.book.initialized ≡ true
      → Settled m (bridge last us m).0
  unfolding bridge
  bridge-Settled last [] m e c i = ground arith
  bridge-Settled last (u ∷ us) m e c i = ground (
    arith,
    replay_buffer-Keeps (u ∷ us) m e c,
    Replayed-not_waiting (replay_buffer-Replayed (u ∷ us) m),
  )

  -- A snapshot leaves the book loaded and out of the waiting state, with an empty buffer.
  pub load_snapshot-Settled :
      (m : LocalBook W) (s : BookSnapshot W) → Settled m (load_snapshot m s).0
  unfolding load_snapshot OrderBook.apply_snapshot
  load_snapshot-Settled m s =
      let last = s.last_update_id in
      let left = drop_stale-fresh last m.buffer m.stats.ignored_stale_updates in
      rw left (bridge-Settled last (fresh last m.buffer) _ refl refl refl)

  module _ (exchange : Exchange) where
    pub on_update-IsConsistent :
        (m : LocalBook W) (u : BookUpdate W)
        → IsConsistent m
        → IsConsistent (on_update exchange m u).0
    unfolding on_update
    on_update-IsConsistent m u c =
        ground (arith, push_buffer_lem m u c.bounded, ready-IsConsistent m u c)

    pub apply_snapshot-IsConsistent :
        (m : LocalBook W) (s : BookSnapshot W)
        → IsConsistent m
        → IsConsistent (apply_snapshot exchange m s).0
    unfolding apply_snapshot
    apply_snapshot-IsConsistent m s c = ground (arith, load_snapshot-Settled m s)

    unfoldable pub step : LocalBook W → Event W → LocalBook W
    step m (update u) = (on_update exchange m u).0
    step m (snapshot s) = (apply_snapshot exchange m s).0
    step m restart = reset m

    unfoldable pub run : LocalBook W → List (Event W) → LocalBook W
    run m [] = m
    run m (e ∷ es) = run (step m e) es

    pub step-IsConsistent :
        (m : LocalBook W) (e : Event W) → IsConsistent m → IsConsistent (step m e)
    unfolding step
    step-IsConsistent m (update u) c = on_update-IsConsistent m u c
    step-IsConsistent m (snapshot s) c = apply_snapshot-IsConsistent m s c
    step-IsConsistent m restart c = reset-IsConsistent m

    pub run-IsConsistent :
        (es : List (Event W)) (m : LocalBook W) → IsConsistent m → IsConsistent (run m es)
    unfolding run
    run-IsConsistent [] m c = c
    run-IsConsistent (e ∷ es) m c = run-IsConsistent es (step m e) (step-IsConsistent m e c)

    -- Whatever updates, snapshots and resets a new local book is given, its counter shows the size
    -- of its buffer, the limit bounds the buffer, and only a book that waits for its snapshot holds
    -- updates; a book that waits is empty, and any other is loaded.
    pub run-make-IsConsistent :
        (symbol : Text) (max : ℕ) (es : List (Event W)) → IsConsistent (run (make symbol max) es)
    run-make-IsConsistent symbol max es = run-IsConsistent es _ (make-IsConsistent symbol max)
