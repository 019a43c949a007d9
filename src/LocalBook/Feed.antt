-- ===== src/LocalBook/Feed.antt =====
-- `on_update` over a row of updates, for a book that waits and for one that is ready.
use arbitrage_engine.Base.{
  ℕ, ◌+◌, ◌≤◌, ◌<◌, ◌≡◌, refl, sym, ◌∙◌, ap, subst, ◌&&◌, true, List, [], ◌∷◌, ◌++◌, arith, All,
  length, length-append, Text, text_eq,
}
use mathlib.Core.List.{append_assoc, append-nil}
use arbitrage_engine.Double.{Double}
use arbitrage_engine.Core.{Exchange, exchange_eq, BookUpdate}
use arbitrage_engine.OrderBook
use arbitrage_engine.OrderBook.{OrderBook, empty_book, ApplyUpdateResult, higher, lower}
use arbitrage_engine.OrderBook.Update.{HasIds, Extends}
use arbitrage_engine.OrderBook.Replay.{IsChain, apply_updates}
use arbitrage_engine.LocalBook.{LocalBook, Status, push_buffer, on_update, update_belongs}
use arbitrage_engine.LocalBook.Replay.{apply_update_to_ready_book_lem}
use arbitrage_engine.LocalBook.Chain.{chain_step}

module _ {W : Type 0} ⦃d : Double W⦄ where
  module _ (exchange : Exchange) where
    -- The updates in turn.
    unfoldable pub feed : LocalBook W → List (BookUpdate W) → LocalBook W
    feed m [] = m
    feed m (u ∷ us) = feed (on_update exchange m u).0 us

    abbrev pub Belong : Text → List (BookUpdate W) → Type 0
    Belong symbol = All λ u. (exchange_eq u.exchange exchange && text_eq u.symbol symbol) ≡ true

    push_step :
        (m : LocalBook W) (u : BookUpdate W)
        → m.status ≡ Status.waiting_for_snapshot
        → update_belongs exchange m u ≡ true
        → length m.buffer < m.max_buffered_updates
        → let m' = (on_update exchange m u).0 in
          (m'.buffer ≡ m.buffer ++ (u ∷ []))
          × (m'.status ≡ Status.waiting_for_snapshot)
          × (m'.max_buffered_updates ≡ m.max_buffered_updates)
          × (m'.symbol ≡ m.symbol)
          × (m'.book ≡ m.book)
    unfolding on_update push_buffer
    push_step m u s b l = ground (arith, length-append m.buffer (u ∷ []))

    -- A book that waits, with room for the updates, buffers them in order.
    pub feed_waiting :
        (m : LocalBook W) (us : List (BookUpdate W))
        → m.status ≡ Status.waiting_for_snapshot
        → Belong m.symbol us
        → length m.buffer + length us ≤ m.max_buffered_updates
        → let m' = feed m us in
          (m'.buffer ≡ m.buffer ++ us)
          × (m'.status ≡ Status.waiting_for_snapshot)
          × (m'.symbol ≡ m.symbol)
          × (m'.book ≡ m.book)
    unfolding feed
    feed_waiting m [] s b l = (sym (append-nil m.buffer), s, refl, refl)
    feed_waiting m (u ∷ us) s (b, bs) l =
        let m' = (on_update exchange m u).0 in
        let (buffer, status, max, name, book) = push_step m u s b (omega arith) in
        let room : length m'.buffer + length us ≤ m'.max_buffered_updates =
          omega (arith, ap length buffer, length-append m.buffer (u ∷ [])) in
        let (buffer', status', name', book') =
          feed_waiting m' us status (subst (λ t. Belong t us) (sym name) bs) room in
        (
          buffer' ∙ ap (λ v. v ++ us) buffer ∙ append_assoc m.buffer (u ∷ []) us,
          status',
          name' ∙ name,
          book' ∙ book,
        )

    ready_step :
        (m : LocalBook W) (u : BookUpdate W) (base : ℕ)
        → m.status ≡ Status.ready
        → m.book.initialized ≡ true
        → update_belongs exchange m u ≡ true
        → HasIds u
        → Extends base u
        → base ≤ m.book.last_update_id
        → let m' = (on_update exchange m u).0 in
          (m'.status ≡ Status.ready)
          × (m'.book ≡ (OrderBook.apply_update m.book u).0)
          × (m'.symbol ≡ m.symbol)
    unfolding on_update
    ready_step m u base s i b h e l =
        ground (arith, apply_update_to_ready_book_lem m u, chain_step m.book u base h e l i)

    -- A ready book follows a chain that begins no later than where it stands: it stays ready, and
    -- each update is given to it.
    pub feed_ready :
        (base : ℕ) (m : LocalBook W) (us : List (BookUpdate W))
        → m.status ≡ Status.ready
        → m.book.initialized ≡ true
        → Belong m.symbol us
        → All HasIds us
        → IsChain base us
        → base ≤ m.book.last_update_id
        → ((feed m us).status ≡ Status.ready) × ((feed m us).book ≡ apply_updates m.book us)
    unfolding feed apply_updates
    feed_ready base m [] s i b h c l = (s, refl)
    feed_ready base m (u ∷ us) s i (b, bs) (h, hs) (e, c) l =
        let m' = (on_update exchange m u).0 in
        let (status, book, name) = ready_step m u base s i b h e l in
        let (reach, loaded, _) = chain_step m.book u base h e l i in
        let (status', book') =
          feed_ready u.final_update_id m' us status (rw book loaded)
            (subst (λ t. Belong t us) (sym name) bs) hs c (rw book reach) in
        (status', book' ∙ ap (λ k. apply_updates k us) book)
