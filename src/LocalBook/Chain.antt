-- ===== src/LocalBook/Chain.antt =====
-- Rows of updates given to a book: where a chain takes it, and what the stale ones do.
use arbitrage_engine.Base.{
  ℕ, ◌≤◌, ◌≡◌, ◌⊎◌, refl, true, List, [], ◌∷◌, ◌++◌, arith, All, leb, Bool-cases, inl, inr,
}
use arbitrage_engine.Double.{Double}
use arbitrage_engine.Core.{BookUpdate}
use arbitrage_engine.OrderBook
use arbitrage_engine.OrderBook.{OrderBook, empty_book, ApplyUpdateResult, higher, lower}
use arbitrage_engine.OrderBook.Update.{HasIds, Extends}
use arbitrage_engine.OrderBook.Replay.{IsChain, apply_updates, final_id}
use arbitrage_engine.LocalBook.Replay.{fresh}

module _ {W : Type 0} ⦃d : Double W⦄ where
  -- An update of a chain leaves an initialised book at its own end or further, without a gap.
  pub chain_step :
      (b : OrderBook W) (u : BookUpdate W) (base : ℕ)
      → HasIds u
      → Extends base u
      → base ≤ b.last_update_id
      → b.initialized ≡ true
      → let (b', r) = OrderBook.apply_update b u in
        (u.final_update_id ≤ b'.last_update_id)
        × (b'.initialized ≡ true)
        × ((r ≡ ApplyUpdateResult.applied) ⊎ (r ≡ ApplyUpdateResult.ignored_stale))
  unfolding OrderBook.apply_update
  chain_step b u base h e l i = ground arith

  apply_update_stale :
      (b : OrderBook W) (u : BookUpdate W)
      → b.initialized ≡ true
      → leb u.final_update_id b.last_update_id ≡ true
      → (OrderBook.apply_update b u).0 ≡ b
  unfolding OrderBook.apply_update
  apply_update_stale b u i e = ground arith

  -- Giving a book a chain with its stale part is giving it the rest.
  pub apply_updates-fresh :
      (b : OrderBook W) (us : List (BookUpdate W))
      → b.initialized ≡ true
      → apply_updates b us ≡ apply_updates b (fresh b.last_update_id us)
  unfolding apply_updates
  apply_updates-fresh b [] i = refl
  apply_updates-fresh b (u ∷ us) i = elim (Bool-cases (leb u.final_update_id b.last_update_id)) [
    | inl e ↦ rw (e, apply_update_stale b u i e) (apply_updates-fresh b us i)
    | inr e ↦ rw e refl
  ]

  pub apply_updates-append :
      (b : OrderBook W) (us vs : List (BookUpdate W))
      → apply_updates b (us ++ vs) ≡ apply_updates (apply_updates b us) vs
  unfolding apply_updates
  apply_updates-append b [] vs = refl
  apply_updates-append b (u ∷ us) vs = apply_updates-append (OrderBook.apply_update b u).0 us vs

  pub IsChain-append :
      (base : ℕ) (us vs : List (BookUpdate W))
      → IsChain base (us ++ vs)
      → IsChain base us × IsChain (final_id base us) vs
  IsChain-append base [] vs c = (tt, c)
  IsChain-append base (u ∷ us) vs (e, c) =
      let (a, b) = IsChain-append u.final_update_id us vs c in ((e, a), b)

  pub apply_updates_reach :
      (base : ℕ) (b : OrderBook W) (us : List (BookUpdate W))
      → All HasIds us
      → IsChain base us
      → base ≤ b.last_update_id
      → b.initialized ≡ true
      → (final_id base us ≤ (apply_updates b us).last_update_id)
        × ((apply_updates b us).initialized ≡ true)
  unfolding apply_updates
  apply_updates_reach base b [] h c l i = (l, i)
  apply_updates_reach base b (u ∷ us) (h, hs) (e, c) l i =
      let (reach, loaded, _) = chain_step b u base h e l i in
      apply_updates_reach u.final_update_id (OrderBook.apply_update b u).0 us hs c reach loaded
