-- ===== src/OrderBook/Replay.antt =====
-- A book read as two functions of the price, and what snapshots and updates do to them.
use arbitrage_engine.Base.{ℕ, ◌≡◌, refl, ◌∙◌, ap, true, Option, none, List, [], ◌∷◌, arith, All}
use arbitrage_engine.Double.{Double, IsNumber, IsOrdered}
use arbitrage_engine.OrderedMap.{find}
use arbitrage_engine.Core.{PriceLevel, BookUpdate}
use arbitrage_engine.OrderBook.{
  OrderBook, ApplyUpdateResult, higher, lower, apply_snapshot, apply_update,
}
use arbitrage_engine.OrderBook.Levels.{
  HasNumbers, replay, lower-IsStrictWeak, higher-IsStrictWeak, find-apply_levels,
}
use arbitrage_engine.OrderBook.Invariant.{IsWellFormed, HasPrices, apply_update-IsWellFormed}
use arbitrage_engine.OrderBook.Update.{HasIds, Extends, apply_update_iff}

module _ {W : Type 0} ⦃d : Double W⦄ where
  -- The quantity on offer at a price.
  abbrev pub bid_at : OrderBook W → W → Option W
  bid_at b p = find higher p b.bids

  abbrev pub ask_at : OrderBook W → W → Option W
  ask_at b p = find lower p b.asks

  -- The updates in turn.
  abbrev pub replay_bids : List (BookUpdate W) → W → Option W → Option W
  replay_bids [] p old = old
  replay_bids (u ∷ us) p old = replay_bids us p (replay higher u.bids p old)

  abbrev pub replay_asks : List (BookUpdate W) → W → Option W → Option W
  replay_asks [] p old = old
  replay_asks (u ∷ us) p old = replay_asks us p (replay lower u.asks p old)

  abbrev pub final_id : ℕ → List (BookUpdate W) → ℕ
  final_id last [] = last
  final_id last (u ∷ us) = final_id u.final_update_id us

  -- Each update extends the one before it.
  abbrev pub IsChain : ℕ → List (BookUpdate W) → Type 0
  IsChain last [] = Unit
  IsChain last (u ∷ us) = Extends last u × IsChain u.final_update_id us

  -- `apply_update` on each update of a row.
  unfoldable pub apply_updates : OrderBook W → List (BookUpdate W) → OrderBook W
  apply_updates b [] = b
  apply_updates b (u ∷ us) = apply_updates (apply_update b u).0 us

  -- What a book reads as: at each price that is a number, the given quantities.
  pub record ReadsAs (b : OrderBook W) (bids asks : W → Option W) : Type 0 where
    pub reads_bids : (p : W) → IsNumber p → bid_at b p ≡ bids p
    pub reads_asks : (p : W) → IsNumber p → ask_at b p ≡ asks p

  pub applied_facts :
      (b : OrderBook W) (u : BookUpdate W)
      → (apply_update b u).1 ≡ ApplyUpdateResult.applied
      → ((apply_update b u).0.initialized ≡ true)
        × ((apply_update b u).0.last_update_id ≡ u.final_update_id)
  unfolding apply_update
  applied_facts b u e = ground arith

  module _ (o : IsOrdered W) where
    -- After a snapshot with no NaN price the book offers, at each price, what the snapshot's last
    -- level for that price says, and nothing of what it held before.
    pub apply_snapshot-ReadsAs :
        (b : OrderBook W) (bids asks : List (PriceLevel W)) (last : ℕ)
        → HasNumbers bids
        → HasNumbers asks
        → ReadsAs
            (apply_snapshot b bids asks last)
            (λ p. replay higher bids p none)
            (λ p. replay lower asks p none)
    unfolding apply_snapshot find
    apply_snapshot-ReadsAs b bids asks last hb ha = record {
      reads_bids = λ p g. find-apply_levels higher (higher-IsStrictWeak o) p [] bids g hb tt;
      reads_asks = λ p g. find-apply_levels lower (lower-IsStrictWeak o) p [] asks g ha tt;
    }

    applied-ReadsAs :
        (b : OrderBook W) (u : BookUpdate W)
        → HasPrices u
        → IsWellFormed b
        → (apply_update b u).1 ≡ ApplyUpdateResult.applied
        → ReadsAs
            (apply_update b u).0
            (λ p. replay higher u.bids p (bid_at b p))
            (λ p. replay lower u.asks p (ask_at b p))
    unfolding apply_update
    applied-ReadsAs b u (hb, ha) w e = record {
      reads_bids = λ p g. ground (
        arith,
        find-apply_levels higher (higher-IsStrictWeak o) p b.bids u.bids g hb w.bids_sorted,
      );
      reads_asks = λ p g. ground (
        arith,
        find-apply_levels lower (lower-IsStrictWeak o) p b.asks u.asks g ha w.asks_sorted,
      );
    }

    -- A row of updates with 64-bit identifiers and no NaN price, each extending the one before it,
    -- is applied in full to an initialised well-formed book: the book stays well formed, ends with
    -- the identifier of the last update, and offers at each price what the row says of it.
    pub apply_updates-ReadsAs :
        (b : OrderBook W) (us : List (BookUpdate W))
        → IsWellFormed b
        → b.initialized ≡ true
        → All HasIds us
        → All HasPrices us
        → IsChain b.last_update_id us
        → IsWellFormed (apply_updates b us)
          × ((apply_updates b us).last_update_id ≡ final_id b.last_update_id us)
          × ReadsAs
              (apply_updates b us)
              (λ p. replay_bids us p (bid_at b p))
              (λ p. replay_asks us p (ask_at b p))
    unfolding apply_updates
    apply_updates-ReadsAs b [] w i h g c =
        (w, refl, record { reads_bids = λ p n. refl; reads_asks = λ p n. refl })
    apply_updates-ReadsAs b (u ∷ us) w i (h, hs) (g, gs) (c, cs) =
        let done = (apply_update_iff b u h).0.1 (i, c) in
        let (i', last) = applied_facts b u done in
        let now = applied-ReadsAs b u g w done in
        let (w', final, rest) =
          apply_updates-ReadsAs (apply_update b u).0 us (apply_update-IsWellFormed o b u g w) i' hs
            gs (rw last cs) in
        (
          w',
          final ∙ ap (λ n. final_id n us) last,
          record {
            reads_bids = λ p n. rest.reads_bids p n ∙ ap (replay_bids us p) (now.reads_bids p n);
            reads_asks = λ p n. rest.reads_asks p n ∙ ap (replay_asks us p) (now.reads_asks p n);
          },
        )
