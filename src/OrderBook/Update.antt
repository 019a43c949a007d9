-- ===== src/OrderBook/Update.antt =====
-- When an update is applied, and what a row of contiguous updates leaves.
use arbitrage_engine.Base.{ℕ, ◌+◌, ◌≤◌, ◌<◌, ◌≡◌, ◌≢◌, ◌↔◌, true, arith, u64_mod}
use arbitrage_engine.Double.{Double}
use arbitrage_engine.Core.{BookUpdate}
use arbitrage_engine.OrderBook.{OrderBook, ApplyUpdateResult, apply_update}

module _ {W : Type 0} ⦃d : Double W⦄ where
  -- The identifiers of an update are 64-bit words.
  abbrev pub HasIds : BookUpdate W → Type 0
  HasIds u = (u.first_update_id < u64_mod) × (u.final_update_id < u64_mod)

  -- The update ends after `last` and starts no later than the next identifier.
  abbrev pub Extends : ℕ → BookUpdate W → Type 0
  Extends last u = (last < u.final_update_id) × (u.first_update_id ≤ last + 1)

  -- For 64-bit identifiers an update is applied exactly when the book is initialised and the update
  -- extends the last identifier; an update that is not applied leaves the book as it was.
  pub apply_update_iff :
      (b : OrderBook W) (u : BookUpdate W)
      → HasIds u
      → (((apply_update b u).1 ≡ ApplyUpdateResult.applied)
          ↔ ((b.initialized ≡ true) × Extends b.last_update_id u))
        × ((apply_update b u).1 ≢ ApplyUpdateResult.applied → (apply_update b u).0 ≡ b)
  unfolding apply_update
  apply_update_iff b u h = ground arith

  -- The last identifier never falls, and it rises to the update's final one exactly when the update
  -- is applied. The book stays initialised or not as it was.
  pub apply_update_progress :
      (b : OrderBook W) (u : BookUpdate W)
      → (b.last_update_id ≤ (apply_update b u).0.last_update_id)
        × (((apply_update b u).1 ≡ ApplyUpdateResult.applied)
            ↔ (b.last_update_id < (apply_update b u).0.last_update_id))
        × ((apply_update b u).0.initialized ≡ b.initialized)
  unfolding apply_update
  apply_update_progress b u = ground arith

  -- A gap is reported exactly when the book is initialised, the update is not stale, and an
  -- identifier between the book and the update is missing.
  pub apply_update_gap :
      (b : OrderBook W) (u : BookUpdate W)
      → HasIds u
      → ((apply_update b u).1 ≡ ApplyUpdateResult.gap_detected) ↔ (
          (b.initialized ≡ true)
          × (b.last_update_id < u.final_update_id)
          × (b.last_update_id + 1 < u.first_update_id))
  unfolding apply_update
  apply_update_gap b u h = ground arith
