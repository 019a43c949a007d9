-- ===== src/LocalBook/Replay.antt =====
-- The loops of `apply_snapshot`: what is dropped from the buffer, and what the rest does to the book.
use arbitrage_engine.Base.{
  ℕ, ◌≤◌, ◌<◌, ◌≡◌, ◌↔◌, ◌⊎◌, ◌+◌, inl, inr, refl, sym, ◌∙◌, ap, subst, true, List, [], ◌∷◌, arith,
  All, leb, inc64, if◌then◌else◌, length, Bool-cases,
}
use arbitrage_engine.Double.{Double}
use arbitrage_engine.Core.{BookUpdate}
use arbitrage_engine.OrderBook
use arbitrage_engine.OrderBook.{OrderBook, ApplyUpdateResult}
use arbitrage_engine.OrderBook.Update.{
  HasIds, apply_update_iff, apply_update_progress, apply_update_gap,
}
use arbitrage_engine.OrderBook.Replay.{IsChain, apply_updates, applied_facts}
use arbitrage_engine.LocalBook.{
  LocalBook, Status, UpdateResult, drop_stale, apply_update_to_ready_book, replay_buffer,
  with_buffer, is_gap_detected,
}

abbrev pub Outcome : Type 0 → Type 0
Outcome W = LocalBook W × UpdateResult

module _ {W : Type 0} where
  -- The updates from the first that ends after `last`.
  abbrev pub fresh : ℕ → List (BookUpdate W) → List (BookUpdate W)
  fresh last [] = []
  fresh last (u ∷ us) = if leb u.final_update_id last then fresh last us else u ∷ us

  pub drop_stale-fresh :
      (last : ℕ) (us : List (BookUpdate W)) (ignored : ℕ)
      → (drop_stale last us ignored).0 ≡ fresh last us
  unfolding drop_stale
  drop_stale-fresh last [] ignored = refl
  drop_stale-fresh last (u ∷ us) ignored = ground (arith, drop_stale-fresh last us (inc64 ignored))

  pub fresh-All {κ} :
      (P : BookUpdate W → Type κ) (last : ℕ) (us : List (BookUpdate W))
      → All P us
      → All P (fresh last us)
  fresh-All P last [] h = h
  fresh-All P last (u ∷ us) (h, hs) = elim (Bool-cases (leb u.final_update_id last)) [
    | inl e ↦ rw e (fresh-All P last us hs)
    | inr e ↦ rw e (h, hs)
  ]

  pub length-fresh : (last : ℕ) (us : List (BookUpdate W)) → length (fresh last us) ≤ length us
  length-fresh last [] = omega arith
  length-fresh last (u ∷ us) = ground (arith, length-fresh last us)

  -- The first update that is left ends after the snapshot.
  pub fresh_head :
      (last : ℕ) (us : List (BookUpdate W)) (u : BookUpdate W) (rest : List (BookUpdate W))
      → fresh last us ≡ u ∷ rest
      → last < u.final_update_id
  fresh_head last [] u rest e = cc
  fresh_head last (v ∷ us) u rest e = ground (arith, fresh_head last us u rest)

module _ {W : Type 0} ⦃d : Double W⦄ where
  -- What is left of a chain that begins no later than the snapshot extends the snapshot.
  pub fresh-IsChain :
      (base last : ℕ) (us : List (BookUpdate W))
      → base ≤ last
      → IsChain base us
      → IsChain last (fresh last us)
  fresh-IsChain base last [] h c = tt
  fresh-IsChain base last (u ∷ us) h ((a, b), c) = elim (Bool-cases (leb u.final_update_id last)) [
    | inl e ↦ rw e (fresh-IsChain u.final_update_id last us (ground arith) c)
    | inr e ↦ rw e ((ground arith, omega arith), c)
  ]

  -- What `apply_update_to_ready_book` does to each member, and what its result says of the book.
  pub apply_update_to_ready_book_lem :
      (m : LocalBook W) (u : BookUpdate W)
      → let (m', r) = apply_update_to_ready_book m u in
        let (b, a) = OrderBook.apply_update m.book u in
        (m'.book ≡ b)
        × (m'.symbol ≡ m.symbol)
        × (m'.max_buffered_updates ≡ m.max_buffered_updates)
        × (m'.buffer ≡ m.buffer)
        × (m'.stats.buffered_updates ≡ m.stats.buffered_updates)
        × ((r ≡ UpdateResult.gap_detected) ↔ (a ≡ ApplyUpdateResult.gap_detected))
        × ((r ≡ UpdateResult.applied) ↔ (a ≡ ApplyUpdateResult.applied))
        × (a ≡ ApplyUpdateResult.gap_detected → m'.status ≡ Status.need_resync)
        × (a ≡ ApplyUpdateResult.applied → m'.status ≡ Status.ready)
        × (a ≡ ApplyUpdateResult.ignored_stale → m'.status ≡ m.status)
  unfolding apply_update_to_ready_book
  apply_update_to_ready_book_lem m u = ground arith

  -- The loop ends in one of two ways: by its own end, with every update given to the book and the
  -- buffer empty, or at a gap, with the buffer emptied and the book out of step.
  pub data Replayed (m : LocalBook W) (us : List (BookUpdate W)) (out : Outcome W) : Type 0 where
    finished :
        out.1 ≡ UpdateResult.snapshot_applied
        → out.0.status ≡ Status.ready
        → out.0.book ≡ apply_updates m.book us
        → Replayed m us out
    stopped :
        out.1 ≡ UpdateResult.gap_detected → out.0.status ≡ Status.need_resync → Replayed m us out

  pub record Keeps (m out : LocalBook W) : Type 0 where
    pub keeps_symbol : out.symbol ≡ m.symbol
    pub keeps_max : out.max_buffered_updates ≡ m.max_buffered_updates
    pub keeps_initialized : out.book.initialized ≡ m.book.initialized

  pub replay_buffer-Replayed :
      (us : List (BookUpdate W)) (m : LocalBook W) → Replayed m us (replay_buffer us m)
  unfolding replay_buffer apply_updates
  replay_buffer-Replayed [] m = finished refl refl refl
  replay_buffer-Replayed (u ∷ us) m =
      let step = apply_update_to_ready_book_lem m u in
      let m' = (apply_update_to_ready_book m u).0 in
      elim (Bool-cases (is_gap_detected (apply_update_to_ready_book m u).1)) [
        | inl e ↦ rw e (stopped refl (ground (arith, step)))
        | inr e ↦ rw e (elim (replay_buffer-Replayed us (with_buffer m' us)) [
          | finished r s b ↦ finished r s (b ∙ ap (λ k. apply_updates k us) step.0)
          | stopped r s ↦ stopped r s
        ])
      ]

  -- An update that does not end by the last identifier of the book starts past the next one, once the
  -- updates before it have been given to the book.
  abbrev pub HasGap : OrderBook W → List (BookUpdate W) → Type 0
  HasGap b [] = ⊥
  HasGap b (u ∷ us) =
      ((b.last_update_id < u.final_update_id) × (b.last_update_id + 1 < u.first_update_id))
      ⊎ HasGap (OrderBook.apply_update b u).0 us

  -- The loop stops at a gap exactly if the updates have one.
  pub replay_buffer-HasGap :
      (us : List (BookUpdate W)) (m : LocalBook W)
      → m.book.initialized ≡ true
      → All HasIds us
      → ((replay_buffer us m).1 ≡ UpdateResult.gap_detected) ↔ HasGap m.book us
  unfolding replay_buffer
  replay_buffer-HasGap [] m i h = ground arith
  replay_buffer-HasGap (u ∷ us) m i (h, hs) =
      let step = apply_update_to_ready_book_lem m u in
      let progress = apply_update_progress m.book u in
      let gap = apply_update_gap m.book u h in
      let m' = (apply_update_to_ready_book m u).0 in
      let rest : ((replay_buffer us (with_buffer m' us)).1 ≡ UpdateResult.gap_detected)
          ↔ HasGap (OrderBook.apply_update m.book u).0 us =
        subst
          (λ b.
            ((replay_buffer us (with_buffer m' us)).1 ≡ UpdateResult.gap_detected) ↔ HasGap b us)
          step.0
          (replay_buffer-HasGap us (with_buffer m' us)
            (ap (λ (k : OrderBook W). k.initialized) step.0 ∙ progress.2 ∙ i) hs) in
      elim (Bool-cases (is_gap_detected (apply_update_to_ready_book m u).1)) [
        | inl e ↦ rw e (
          (λ q. inl ((gap.0 (ground (arith, step))).1, (gap.0 (ground (arith, step))).2)),
          (λ q. refl),
        )
        | inr e ↦ rw e (
          (λ q. inr (rest.0 q)),
          (λ q. elim q [
            | inl (a, b) ↦ absurd (ground (arith, step, gap.1 (i, a, b)))
            | inr k ↦ rest.1 k
          ]),
        )
      ]

  pub replay_buffer-Keeps :
      (us : List (BookUpdate W)) (m : LocalBook W)
      → m.buffer ≡ us
      → m.stats.buffered_updates ≡ length us
      → Keeps m (replay_buffer us m).0
        × ((replay_buffer us m).0.buffer ≡ [])
        × ((replay_buffer us m).0.stats.buffered_updates ≡ 0)
  unfolding replay_buffer
  replay_buffer-Keeps [] m e c = ground arith
  replay_buffer-Keeps (u ∷ us) m e c = ground (
    arith,
    apply_update_to_ready_book_lem m u,
    apply_update_progress m.book u,
    replay_buffer-Keeps us (with_buffer (apply_update_to_ready_book m u).0 us) refl refl,
  )

  -- A chain that extends an initialised book is replayed without a gap.
  pub replay_buffer-IsChain :
      (us : List (BookUpdate W)) (m : LocalBook W)
      → m.book.initialized ≡ true
      → All HasIds us
      → IsChain m.book.last_update_id us
      → (replay_buffer us m).1 ≡ UpdateResult.snapshot_applied
  unfolding replay_buffer
  replay_buffer-IsChain [] m i h c = refl
  replay_buffer-IsChain (u ∷ us) m i (h, hs) (c, cs) =
      let step = apply_update_to_ready_book_lem m u in
      let b' = (apply_update_to_ready_book m u).0.book in
      let done = (apply_update_iff m.book u h).0.1 (i, c) in
      let (loaded, last) = applied_facts m.book u done in
      let chain =
        subst (λ n. IsChain n us) (sym (ap (λ (k : OrderBook W). k.last_update_id) step.0 ∙ last))
          cs in
      ground (
        arith,
        step,
        replay_buffer-IsChain us (with_buffer (apply_update_to_ready_book m u).0 us)
            (ap (λ (k : OrderBook W). k.initialized) step.0 ∙ loaded) hs chain,
      )
