-- ===== src/LocalBook/Outcome.antt =====
-- What the result of `apply_snapshot` says of the book.
use arbitrage_engine.Base.{◌≡◌, ◌⊎◌, inl, inr, refl, List, [], ◌∷◌, ltb, inc64, ◌||◌, ℕ, Bool-cases}
use arbitrage_engine.Double.{Double}
use arbitrage_engine.Core.{BookUpdate, BookSnapshot}
use arbitrage_engine.LocalBook.{LocalBook, Status, UpdateResult, bridge, load_snapshot}
use arbitrage_engine.LocalBook.Replay.{replay_buffer-Replayed, Replayed, finished, stopped}

module _ {W : Type 0} ⦃d : Double W⦄ where
  -- The snapshot is applied and the book ready, or it is not and the book asks for a new one.
  abbrev pub Answers : LocalBook W × UpdateResult → Type 0
  Answers out =
      ((out.1 ≡ UpdateResult.snapshot_applied) × (out.0.status ≡ Status.ready))
      ⊎ (((out.1 ≡ UpdateResult.snapshot_rejected) ⊎ (out.1 ≡ UpdateResult.gap_detected))
          × (out.0.status ≡ Status.need_resync))

  answers :
      {m : LocalBook W} {us : List (BookUpdate W)} {out : LocalBook W × UpdateResult}
      → Replayed m us out
      → Answers out
  answers (finished r s b) = inl (r, s)
  answers (stopped r s) = inr (inr r, s)

  bridge-Answers :
      (last : ℕ) (us : List (BookUpdate W)) (m : LocalBook W) → Answers (bridge last us m)
  unfolding bridge
  bridge-Answers last [] m = inl (refl, refl)
  bridge-Answers last (u ∷ us) m =
      elim (Bool-cases (ltb (inc64 last) u.first_update_id || ltb u.final_update_id (inc64 last))) [
        | inl e ↦ rw (bridge, e) (inr (inl refl, refl))
        | inr e ↦ rw (bridge, e) (answers (replay_buffer-Replayed (u ∷ us) m))
      ]

  pub load_snapshot-Answers : (m : LocalBook W) (s : BookSnapshot W) → Answers (load_snapshot m s)
  unfolding load_snapshot
  load_snapshot-Answers m s = bridge-Answers s.last_update_id _ _
