-- ===== src/LocalLiveAll/Steps.antt =====
-- What the critical sections of the two threads do to the local books that are kept.
use arbitrage_engine.Base.{
  ℕ, ◌≡◌, refl, ap, inl, inr, Bool, true, Option, none, some, List, [], ◌∷◌, arith, Text,
  Option-cases, Bool-cases, if◌then◌else◌, length, ltb,
}
use arbitrage_engine.Double.{Double}
use arbitrage_engine.Core.{Exchange, BookUpdate, BookSnapshot}
use arbitrage_engine.Dict.{lookup}
use arbitrage_engine.LocalBook.{
  LocalBook, UpdateResult, is_waiting, on_update, apply_snapshot, reset, make,
}
use arbitrage_engine.LocalBook.Binance
use arbitrage_engine.LocalBook.Mexc
use arbitrage_engine.LocalBook.Invariant.{make-IsConsistent}
use arbitrage_engine.LocalBook.Outcome.{load_snapshot-Answers}
use arbitrage_engine.Live.Entries.{lookup-AllEntries}
use arbitrage_engine.Live.Invariant.{
  IsKept, on_update-IsKept, apply_snapshot-IsKept, reset-IsKept, make_managers-IsSide,
}
use arbitrage_engine.LocalLive.{Messages, Poll, is_applied}
use arbitrage_engine.LocalLiveAll.{wait_for_symbol_buffer, apply_or_reset}
use arbitrage_engine.LocalLiveAll.State.{
  Books, new_books, tally, has_buffer, take_update, on_message, on_messages,
}
use arbitrage_engine.LocalLiveAll.Status.{
  settled, count_settled, count_settled-make_managers, AreKept, waits_at, IsQuiet, IsQuiet-refl,
  IsQuiet-trans, insert-IsQuiet, on_update-is_waiting,
}

pub new_books-AreKept :
    (W : Type 0) (e : Exchange) (symbols : List Text)
    → AreKept (new_books {W = W} e symbols).managers
unfolding new_books Binance.make Mexc.make make
new_books-AreKept W Exchange.binance symbols =
    make_managers-IsSide Binance.make (λ t. (refl, make-IsConsistent t 10000)) symbols [] (tt, tt)
new_books-AreKept W Exchange.mexc symbols =
    make_managers-IsSide Mexc.make (λ t. (refl, make-IsConsistent t 10000)) symbols [] (tt, tt)

pub new_books_waiting :
    (W : Type 0) (e : Exchange) (symbols : List Text)
    → count_settled (new_books {W = W} e symbols).managers ≡ 0
unfolding new_books Binance.make Mexc.make make count_settled
new_books_waiting W Exchange.binance symbols =
    count_settled-make_managers Binance.make (λ t. refl) symbols []
new_books_waiting W Exchange.mexc symbols =
    count_settled-make_managers Mexc.make (λ t. refl) symbols []

abbrev pub bit : Bool → ℕ
bit done = if done then 1 else 0

module _ {W : Type 0} ⦃d : Double W⦄ (e : Exchange) where
  pub tally_managers :
      (result : UpdateResult) (b : Books W) → (tally result b).managers ≡ b.managers
  unfolding tally
  tally_managers UpdateResult.buffered b = refl
  tally_managers UpdateResult.applied b = refl
  tally_managers UpdateResult.gap_detected b = refl
  tally_managers UpdateResult.snapshot_applied b = refl
  tally_managers UpdateResult.snapshot_rejected b = refl
  tally_managers UpdateResult.ignored_stale b = refl
  tally_managers UpdateResult.not_for_symbol b = refl

  on_message-IsQuiet :
      (b : Books W) (u : Option (BookUpdate W))
      → AreKept b.managers
      → IsQuiet b.managers (on_message e b u).managers
  unfolding on_message
  on_message-IsQuiet b none h = IsQuiet-refl b.managers h
  on_message-IsQuiet b (some u) h = elim (Option-cases (lookup u.symbol b.managers)) [
    | inl q ↦ rw (on_message, q) (IsQuiet-refl b.managers h)
    | inr (m, q) ↦
        let own : IsKept u.symbol m = lookup-AllEntries IsKept u.symbol b.managers h.0 q in
        rw
          (
            on_message,
            q,
            tally_managers (on_update e m u).1 (take_update u.symbol (on_update e m u).0 b),
          )
          (insert-IsQuiet u.symbol m (on_update e m u).0 b.managers q
            (on_update-IsKept e u.symbol m u own) (on_update-is_waiting e m u own.1) h)
  ]

  pub on_messages-IsQuiet :
      (us : Messages W) (b : Books W)
      → AreKept b.managers
      → IsQuiet b.managers (on_messages e b us).managers
  unfolding on_messages
  on_messages-IsQuiet [] b h = IsQuiet-refl b.managers h
  on_messages-IsQuiet (u ∷ us) b h =
      let first = on_message-IsQuiet b u h in
      IsQuiet-trans b.managers (on_message e b u).managers _ first
        (on_messages-IsQuiet us (on_message e b u) first.kept)

  pub wait-IsQuiet :
      (symbol : Text) (polls : List (Poll W)) (b : Books W)
      → AreKept b.managers
      → let out = wait_for_symbol_buffer e symbol polls b in
        IsQuiet b.managers out.0.managers × (out.1 ≡ true → has_buffer symbol out.0 ≡ true)
  unfolding wait_for_symbol_buffer
  wait-IsQuiet symbol [] b h = (IsQuiet-refl b.managers h, λ q. absurd (cc))
  wait-IsQuiet symbol (p ∷ polls) b h =
      let b' = on_messages e b p.messages in
      let first = on_messages-IsQuiet p.messages b h in
      let (later, full) = wait-IsQuiet symbol polls b' first.kept in
      elim (Bool-cases (has_buffer symbol b')) [
        | inl q ↦ rw (wait_for_symbol_buffer, q) (first, λ t. q)
        | inr q ↦ elim (Bool-cases p.finished) [
          | inl f ↦ rw (wait_for_symbol_buffer, q, f) (first, λ t. absurd (cc))
          | inr f ↦
              rw (wait_for_symbol_buffer, q, f)
                (IsQuiet-trans b.managers b'.managers _ first later, full)
        ]
      ]

  -- A book with a buffer waits for its snapshot.
  pub has_buffer_waits :
      (symbol : Text) (b : Books W)
      → AreKept b.managers
      → has_buffer symbol b ≡ true
      → waits_at symbol b.managers ≡ some true
  unfolding has_buffer
  has_buffer_waits symbol b h q = elim (Option-cases (lookup symbol b.managers)) [
    | inl n ↦ absurd (ground (arith, n, q))
    | inr (m, n) ↦
        let own : IsKept symbol m = lookup-AllEntries IsKept symbol b.managers h.0 n in
        let full : ltb 0 (length m.buffer) ≡ true = rw (has_buffer, n) at q in
        elim (Bool-cases (is_waiting m.status)) [
          | inl w ↦ rw n (ap some w)
          | inr w ↦ absurd (ground (arith, full, ap length (own.1.idle w)))
        ]
  ]

  -- A book that is asked to load a snapshot is kept, and leaves its wait if it is loaded.
  pub apply_or_reset_lem :
      (t : Text) (m : LocalBook W) (s : BookSnapshot W)
      → IsKept t m
      → let out = apply_or_reset e m s in IsKept t out.0 × (settled out.0 ≡ bit out.1)
  unfolding apply_or_reset apply_snapshot reset
  apply_or_reset_lem t m s h =
      let own = apply_snapshot-IsKept e t m s h in
      elim (Bool-cases (is_applied (apply_snapshot e m s).1)) [
        | inl q ↦ rw (apply_or_reset, q) (own, ground (arith, load_snapshot-Answers m s, q))
        | inr q ↦ rw (apply_or_reset, q) (reset-IsKept t (apply_snapshot e m s).0 own, refl)
      ]
