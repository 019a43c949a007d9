-- ===== src/LocalBook/Stream.antt =====
-- The whole synchronisation: updates buffered, a snapshot loaded, live updates followed.
use arbitrage_engine.Base.{
  ℕ, ◌≤◌, ◌≡◌, refl, sym, ◌∙◌, ap, subst, ◌&&◌, true, none, List, ◌++◌, arith, All, All-append,
  length, Text, text_eq,
}
use arbitrage_engine.Double.{Double, IsOrdered}
use arbitrage_engine.Core.{Exchange, exchange_eq, BookUpdate, BookSnapshot}
use arbitrage_engine.OrderBook
use arbitrage_engine.OrderBook.{OrderBook, empty_book, ApplyUpdateResult, higher, lower}
use arbitrage_engine.OrderBook.Levels.{HasNumbers, replay}
use arbitrage_engine.OrderBook.Invariant.{IsWellFormed, HasPrices, apply_snapshot-IsWellFormed}
use arbitrage_engine.OrderBook.Update.{HasIds}
use arbitrage_engine.OrderBook.Replay.{
  IsChain, apply_updates, final_id, replay_bids, replay_asks, ReadsAs, apply_snapshot-ReadsAs,
  apply_updates-ReadsAs,
}
use arbitrage_engine.LocalBook.{
  LocalBook, Status, make, apply_snapshot, snapshot_belongs, load_snapshot,
}
use arbitrage_engine.LocalBook.Replay.{fresh, fresh-IsChain, fresh-All}
use arbitrage_engine.LocalBook.Snapshot.{load_snapshot_syncs}
use arbitrage_engine.LocalBook.Invariant.{load_snapshot-Settled}
use arbitrage_engine.LocalBook.Chain.{
  apply_updates-fresh, apply_updates-append, IsChain-append, apply_updates_reach,
}
use arbitrage_engine.LocalBook.Feed.{feed, Belong, feed_waiting, feed_ready}

module _ {W : Type 0} ⦃d : Double W⦄ where
  module _ (exchange : Exchange) where
    -- The calls of one synchronisation: the updates before the snapshot, the snapshot, those after.
    unfoldable pub synchronise :
        Text → ℕ → List (BookUpdate W) → BookSnapshot W → List (BookUpdate W) → LocalBook W
    synchronise symbol max before s after =
        feed exchange (apply_snapshot exchange (feed exchange (make symbol max) before) s).0 after

    -- The snapshot, on a book that was never loaded.
    abbrev pub loaded_book : BookSnapshot W → OrderBook W
    loaded_book s = OrderBook.apply_snapshot empty_book s.bids s.asks s.last_update_id

    abbrev pub SnapshotBelongs : Text → BookSnapshot W → Type 0
    SnapshotBelongs symbol s = (exchange_eq s.exchange exchange && text_eq s.symbol symbol) ≡ true

    -- From a buffer that the snapshot bridges, to a ready book given all of it.
    load_feed :
        (m : LocalBook W) (base : ℕ) (before after : List (BookUpdate W)) (s : BookSnapshot W)
        → m.buffer ≡ before
        → Belong exchange m.symbol after
        → All HasIds before
        → All HasIds after
        → IsChain base (before ++ after)
        → base ≤ s.last_update_id
        → let m' = feed exchange (load_snapshot m s).0 after in
          (m'.status ≡ Status.ready)
          × (m'.book ≡ apply_updates (loaded_book s) (fresh s.last_update_id (before ++ after)))
    unfolding OrderBook.apply_snapshot
    load_feed m base before after s buffer ba hb ha c l =
        let b = loaded_book s in
        let m' = (load_snapshot m s).0 in
        let (cb, ca) = IsChain-append base before after c in
        let (_, ready, book) = load_snapshot_syncs m s base (rw buffer hb) (rw buffer cb) l in
        let given : m'.book ≡ apply_updates b before =
          book
          ∙ ap (λ us. apply_updates b (fresh s.last_update_id us)) buffer
          ∙ sym (apply_updates-fresh b before refl) in
        let (reach, loaded) = apply_updates_reach base b before hb cb l refl in
        let name = (load_snapshot-Settled m s).3 in
        let (ready', book') =
          feed_ready exchange (final_id base before) m' after ready (rw given loaded)
            (subst (λ t. Belong exchange t after) (sym name) ba) ha ca (rw given reach) in
        (
          ready',
          book'
              ∙ ap (λ k. apply_updates k after) given
              ∙ sym (apply_updates-append b before after)
              ∙ apply_updates-fresh b (before ++ after) refl,
        )

    -- A new local book that is given updates, then a snapshot, then more updates ends ready, with the
    -- book of the snapshot given every update from the first that ends after it, if all are of this
    -- book, the updates are one chain with 64-bit identifiers that begins no later than the
    -- snapshot, and those before the snapshot fit the buffer.
    pub synchronise_lem :
        (symbol : Text) (max base : ℕ) (before after : List (BookUpdate W)) (s : BookSnapshot W)
        → Belong exchange symbol before
        → Belong exchange symbol after
        → SnapshotBelongs symbol s
        → length before ≤ max
        → All HasIds before
        → All HasIds after
        → IsChain base (before ++ after)
        → base ≤ s.last_update_id
        → let m = synchronise symbol max before s after in
          (m.status ≡ Status.ready)
          × (m.book ≡ apply_updates (loaded_book s) (fresh s.last_update_id (before ++ after)))
    unfolding synchronise apply_snapshot make
    synchronise_lem symbol max base before after s bb ba bs room hb ha c l =
        let m = feed exchange (make symbol max) before in
        let (buffer, _, name, _) =
          feed_waiting exchange (make symbol max) before refl bb (omega arith) in
        let belongs : snapshot_belongs exchange m s ≡ true = rw name bs in
        rw belongs (
          load_feed m base before after s buffer
            (subst (λ t. Belong exchange t after) (sym name) ba) hb ha c l)

    module _ (o : IsOrdered W) where
      -- A new local book that is given updates, then a snapshot, then more updates ends well formed, with
      -- the identifier of the last update after the snapshot, and offers at each price what the snapshot
      -- and then the updates from the first that ends after it say; if no price is NaN, all are of this book, the
      -- updates are one chain with 64-bit identifiers that begins no later than the snapshot, and those
      -- before the snapshot fit the buffer.
      pub synchronise-ReadsAs :
          (symbol : Text) (max base : ℕ) (before after : List (BookUpdate W)) (s : BookSnapshot W)
          → Belong exchange symbol before
          → Belong exchange symbol after
          → SnapshotBelongs symbol s
          → length before ≤ max
          → All HasIds before
          → All HasIds after
          → All HasPrices before
          → All HasPrices after
          → HasNumbers s.bids
          → HasNumbers s.asks
          → IsChain base (before ++ after)
          → base ≤ s.last_update_id
          → let b = (synchronise symbol max before s after).book in
            let rest = fresh s.last_update_id (before ++ after) in
            IsWellFormed b
            × (b.last_update_id ≡ final_id s.last_update_id rest)
            × ReadsAs b
                (λ p. replay_bids rest p (replay higher s.bids p none))
                (λ p. replay_asks rest p (replay lower s.asks p none))
      unfolding OrderBook.apply_snapshot
      synchronise-ReadsAs symbol max base before after s bb ba bs room hb ha pb pa nb na c l =
          let last = s.last_update_id in
          let rest = fresh last (before ++ after) in
          let (_, book) = synchronise_lem symbol max base before after s bb ba bs room hb ha c l in
          let (formed, final, reads) =
            apply_updates-ReadsAs o (loaded_book s) rest
              (apply_snapshot-IsWellFormed o empty_book s.bids s.asks last nb na) refl
              (fresh-All HasIds last (before ++ after) (All-append HasIds before after hb ha))
              (fresh-All HasPrices last (before ++ after) (All-append HasPrices before after pb pa))
              (fresh-IsChain base last (before ++ after) l c) in
          let start = apply_snapshot-ReadsAs o empty_book s.bids s.asks last nb na in
          rw book (
            formed,
            final,
            record {
              reads_bids =
                  λ p n. reads.reads_bids p n ∙ ap (replay_bids rest p) (start.reads_bids p n);
              reads_asks =
                  λ p n. reads.reads_asks p n ∙ ap (replay_asks rest p) (start.reads_asks p n);
            },
          )
