-- ===== src/LocalBook/Snapshot.antt =====
-- What `apply_snapshot` does, for a snapshot of the book's own symbol.
use arbitrage_engine.Base.{
  ℕ, ◌+◌, ◌≤◌, ◌<◌, ◌≡◌, inl, inr, refl, sym, ◌∙◌, ◌||◌, true, List, [], ◌∷◌, arith, All, ltb,
  le→ltb, inc64, Bool-cases, u64_mod,
}
use arbitrage_engine.Double.{Double}
use arbitrage_engine.Core.{BookUpdate, BookSnapshot}
use arbitrage_engine.OrderBook
use arbitrage_engine.OrderBook.{OrderBook}
use arbitrage_engine.OrderBook.Update.{HasIds}
use arbitrage_engine.OrderBook.Replay.{IsChain, apply_updates}
use arbitrage_engine.LocalBook.{LocalBook, Status, UpdateResult, bridge, load_snapshot}
use arbitrage_engine.LocalBook.Replay.{
  Outcome, fresh, drop_stale-fresh, fresh-All, fresh-IsChain, fresh_head, finished, stopped,
  replay_buffer-Replayed, HasGap, replay_buffer-HasGap, replay_buffer-IsChain,
}

-- Once the stale updates are dropped, only the first half of the bridging test can fail, and the
-- next identifier does not wrap.
bridge_test :
    (last first final : ℕ)
    → last < final
    → final < u64_mod
    → (ltb (inc64 last) first || ltb final (inc64 last)) ≡ ltb (last + 1) first
bridge_test last first final h l = ground arith

not_gap : ¬ (UpdateResult.snapshot_applied ≡ UpdateResult.gap_detected)
not_gap h = cc

module _ {W : Type 0} ⦃d : Double W⦄ where
  -- The book as the snapshot alone leaves it.
  abbrev pub snapshot_book : LocalBook W → BookSnapshot W → OrderBook W
  snapshot_book m s = OrderBook.apply_snapshot m.book s.bids s.asks s.last_update_id

  -- The first of the updates starts past the next identifier.
  abbrev pub StartsPast : ℕ → List (BookUpdate W) → Type 0
  StartsPast last [] = ⊥
  StartsPast last (u ∷ us) = last + 1 < u.first_update_id

  -- The three ways in which a snapshot ends.
  pub data Loaded (last : ℕ) (b : OrderBook W) (us : List (BookUpdate W)) (out : Outcome W)
      : Type 0 where
    synced :
        out.1 ≡ UpdateResult.snapshot_applied
        → out.0.status ≡ Status.ready
        → out.0.book ≡ apply_updates b us
        → ¬ HasGap b us
        → Loaded last b us out
    rejected :
        out.1 ≡ UpdateResult.snapshot_rejected
        → out.0.status ≡ Status.need_resync
        → StartsPast last us
        → Loaded last b us out
    broken :
        out.1 ≡ UpdateResult.gap_detected
        → out.0.status ≡ Status.need_resync
        → ¬ StartsPast last us
        → HasGap b us
        → Loaded last b us out

  bridge-Loaded :
      (last : ℕ) (us : List (BookUpdate W)) (m : LocalBook W)
      → m.book.initialized ≡ true
      → All HasIds us
      → ((u : BookUpdate W) (rest : List (BookUpdate W)) → us ≡ u ∷ rest → last < u.final_update_id)
      → Loaded last m.book us (bridge last us m)
  unfolding bridge apply_updates
  bridge-Loaded last [] m i h f = synced refl refl refl (λ q. q)
  bridge-Loaded last (u ∷ us) m i (h, hs) f =
      let gap = replay_buffer-HasGap (u ∷ us) m i (h, hs) in
      let test = bridge_test last u.first_update_id u.final_update_id (f u us refl) h.1 in
      elim (Bool-cases (ltb (last + 1) u.first_update_id)) [
        | inl e ↦ rw (test, e) (rejected refl refl (ground arith))
        | inr e ↦
            rw (test, e)
              (elim (replay_buffer-Replayed (u ∷ us) m) [
                | finished r s b ↦ synced r s b (λ q. not_gap (sym r ∙ gap.1 q))
                | stopped r s ↦ broken r s (λ p. ground arith) (gap.0 r)
              ])
      ]

  -- A snapshot of a book whose buffered updates have 64-bit identifiers ends in one of three ways:
  -- synchronised, with the book given the snapshot and then every update left after the stale ones
  -- are dropped, and then these have no gap; rejected, and then the first of them starts past the
  -- next identifier; or out of step, and then the first of them does not, but they have a gap further
  -- on: one that is not stale starts past the next identifier of the book as those before it have
  -- left it. Only the first way leaves the book ready, and the other two ask for a new synchronisation.
  pub load_snapshot-Loaded :
      (m : LocalBook W) (s : BookSnapshot W)
      → All HasIds m.buffer
      → Loaded s.last_update_id
          (snapshot_book m s)
          (fresh s.last_update_id m.buffer)
          (load_snapshot m s)
  unfolding load_snapshot OrderBook.apply_snapshot
  load_snapshot-Loaded m s h =
      let last = s.last_update_id in
      let left = drop_stale-fresh last m.buffer m.stats.ignored_stale_updates in
      rw left (
        bridge-Loaded last (fresh last m.buffer) _ refl (fresh-All HasIds last m.buffer h)
          (λ u rest e. fresh_head last m.buffer u rest e))

  bridge-IsChain :
      (last : ℕ) (us : List (BookUpdate W)) (m : LocalBook W)
      → m.book.initialized ≡ true
      → m.book.last_update_id ≡ last
      → All HasIds us
      → IsChain last us
      → (bridge last us m).1 ≡ UpdateResult.snapshot_applied
  unfolding bridge
  bridge-IsChain last [] m i e h c = refl
  bridge-IsChain last (u ∷ us) m i e (h, hs) (c, cs) =
      rw (bridge_test last u.first_update_id u.final_update_id c.0 h.1, le→ltb _ _ c.1)
        (replay_buffer-IsChain (u ∷ us) m i (h, hs) (rw e (c, cs)))

  load_snapshot-IsChain :
      (m : LocalBook W) (s : BookSnapshot W) (base : ℕ)
      → All HasIds m.buffer
      → IsChain base m.buffer
      → base ≤ s.last_update_id
      → (load_snapshot m s).1 ≡ UpdateResult.snapshot_applied
  unfolding load_snapshot OrderBook.apply_snapshot
  load_snapshot-IsChain m s base h c l =
      let last = s.last_update_id in
      rw (drop_stale-fresh last m.buffer m.stats.ignored_stale_updates) (
        bridge-IsChain last (fresh last m.buffer) _ refl refl (fresh-All HasIds last m.buffer h)
          (fresh-IsChain base last m.buffer l c))

  -- A buffer that is a chain from no later than the snapshot synchronises the book: the result is
  -- `SnapshotApplied`, the book is ready, and it has been given the snapshot and then every buffered
  -- update from the first that ends after the snapshot.
  pub load_snapshot_syncs :
      (m : LocalBook W) (s : BookSnapshot W) (base : ℕ)
      → All HasIds m.buffer
      → IsChain base m.buffer
      → base ≤ s.last_update_id
      → ((load_snapshot m s).1 ≡ UpdateResult.snapshot_applied)
        × ((load_snapshot m s).0.status ≡ Status.ready)
        × ((load_snapshot m s).0.book
            ≡ apply_updates (snapshot_book m s) (fresh s.last_update_id m.buffer))
  load_snapshot_syncs m s base h c l =
      let done = load_snapshot-IsChain m s base h c l in
      elim (load_snapshot-Loaded m s h) [
        | synced r t b k ↦ (r, t, b)
        | rejected r t p ↦ absurd (cc)
        | broken r t p k ↦ absurd (cc)
      ]
