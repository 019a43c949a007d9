-- ===== src/Live/Invariant.antt =====
-- The local books of both exchanges over any interleaving of the critical sections.
use arbitrage_engine.Base.{
  ◌≡◌, refl, inl, inr, Option, none, some, List, [], ◌∷◌, arith, Text, Option-cases,
}
use arbitrage_engine.Double.{Double}
use arbitrage_engine.Core.{Exchange, BookUpdate, BookSnapshot}
use arbitrage_engine.Dict.{lookup, emplace}
use arbitrage_engine.Dict.Laws.{IsDistinct, insert-IsDistinct, emplace-IsDistinct}
use arbitrage_engine.LocalBook
use arbitrage_engine.LocalBook.{LocalBook, make, reset, on_update, apply_snapshot}
use arbitrage_engine.LocalBook.Binance
use arbitrage_engine.LocalBook.Mexc
use arbitrage_engine.LocalBook.Replay.{apply_update_to_ready_book_lem}
use arbitrage_engine.LocalBook.Invariant.{
  IsConsistent, make-IsConsistent, reset-IsConsistent, on_update-IsConsistent,
  apply_snapshot-IsConsistent, push_buffer_lem, load_snapshot-Settled,
}
use arbitrage_engine.Live.{
  Live, Side, Managers, make_live, make_managers, make_side, on_message, change, on_binance_message,
  on_mexc_message, load_binance, load_mexc, reset_binance, reset_mexc,
}
use arbitrage_engine.Live.Entries.{
  AllEntries, lookup-AllEntries, insert-AllEntries, emplace-AllEntries,
}

module _ {W : Type 0} where
  -- The book under a symbol is that symbol's, and consistent.
  abbrev pub IsKept : Text → LocalBook W → Type 0
  IsKept symbol m = (m.symbol ≡ symbol) × IsConsistent m

  abbrev pub IsSide : Side W → Type 0
  IsSide s = AllEntries IsKept s.managers × IsDistinct s.managers

  abbrev pub IsLive : Live W → Type 0
  IsLive l = IsSide l.binance × IsSide l.mexc

  pub make_managers-IsSide :
      (make : Text → LocalBook W) (kept : (t : Text) → IsKept t (make t)) (symbols : List Text)
      (ms : Managers W)
      → IsSide (make_side ms)
      → IsSide (make_side (make_managers make symbols ms))
  unfolding make_managers
  make_managers-IsSide make kept [] ms h = h
  make_managers-IsSide make kept (t ∷ symbols) ms (h, d) =
      make_managers-IsSide make kept symbols (emplace t (make t) ms)
        (emplace-AllEntries IsKept t (make t) ms (kept t) h, emplace-IsDistinct t (make t) ms d)

  change-IsSide :
      (f : LocalBook W → LocalBook W) (s : Side W) (symbol : Text)
      → ((m : LocalBook W) → IsKept symbol m → IsKept symbol (f m))
      → IsSide s
      → IsSide (change f s symbol)
  unfolding change
  change-IsSide f s symbol keep (h, d) = elim (Option-cases (lookup symbol s.managers)) [
    | inl e ↦ rw (e, change) (h, d)
    | inr (m, e) ↦
        rw (e, change)
          (
            insert-AllEntries IsKept symbol (f m) s.managers
                (keep m (lookup-AllEntries IsKept symbol s.managers h e)) h,
            insert-IsDistinct symbol (f m) s.managers d,
          )
  ]

  on_message-IsSide :
      (f : LocalBook W → BookUpdate W → LocalBook W) (s : Side W) (u : Option (BookUpdate W))
      → ((t : Text) (m : LocalBook W) (v : BookUpdate W) → IsKept t m → IsKept t (f m v))
      → IsSide s
      → IsSide (on_message f s u)
  unfolding on_message
  on_message-IsSide f s none keep h = h
  on_message-IsSide f s (some u) keep (h, d) = elim (Option-cases (lookup u.symbol s.managers)) [
    | inl e ↦ rw (e, on_message) (h, d)
    | inr (m, e) ↦
        rw (e, on_message)
          (
            insert-AllEntries IsKept u.symbol (f m u) s.managers
                (keep u.symbol m u (lookup-AllEntries IsKept u.symbol s.managers h e)) h,
            insert-IsDistinct u.symbol (f m u) s.managers d,
          )
  ]

make_live-IsLive : (W : Type 0) (symbols : List Text) → IsLive (make_live {W = W} symbols)
unfolding make_live Binance.make Mexc.make LocalBook.make
make_live-IsLive W symbols = (
  make_managers-IsSide Binance.make (λ t. (refl, make-IsConsistent t 10000)) symbols [] (tt, tt),
  make_managers-IsSide Mexc.make (λ t. (refl, make-IsConsistent t 10000)) symbols [] (tt, tt),
)

-- The critical sections, whichever thread enters them. A message is what the parser made of it.
pub data LiveEvent (W : Type 0) : Type 0 where
  binance_message mexc_message : Option (BookUpdate W) → LiveEvent W
  binance_snapshot mexc_snapshot : Text → BookSnapshot W → LiveEvent W
  binance_reset mexc_reset : Text → LiveEvent W

module _ {W : Type 0} ⦃d : Double W⦄ where
  pub on_update-IsKept :
      (e : Exchange) (t : Text) (m : LocalBook W) (u : BookUpdate W)
      → IsKept t m
      → IsKept t (on_update e m u).0
  unfolding on_update
  on_update-IsKept e t m u (n, c) = (
    ground (arith, push_buffer_lem m u c.bounded, apply_update_to_ready_book_lem m u),
    on_update-IsConsistent e m u c,
  )

  pub apply_snapshot-IsKept :
      (e : Exchange) (t : Text) (m : LocalBook W) (s : BookSnapshot W)
      → IsKept t m
      → IsKept t (apply_snapshot e m s).0
  unfolding apply_snapshot
  apply_snapshot-IsKept e t m s (n, c) =
      (ground (arith, load_snapshot-Settled m s), apply_snapshot-IsConsistent e m s c)

  pub reset-IsKept : (t : Text) (m : LocalBook W) → IsKept t m → IsKept t (reset m)
  unfolding reset
  reset-IsKept t m (n, c) = (n, reset-IsConsistent m)

  unfoldable pub live_step : Live W → LiveEvent W → Live W
  live_step l (binance_message u) = on_binance_message l u
  live_step l (mexc_message u) = on_mexc_message l u
  live_step l (binance_snapshot t s) = load_binance l t s
  live_step l (mexc_snapshot t s) = load_mexc l t s
  live_step l (binance_reset t) = reset_binance l t
  live_step l (mexc_reset t) = reset_mexc l t

  unfoldable pub live_run : Live W → List (LiveEvent W) → Live W
  live_run l [] = l
  live_run l (e ∷ es) = live_run (live_step l e) es

  live_step-IsLive : (l : Live W) (e : LiveEvent W) → IsLive l → IsLive (live_step l e)
  unfolding live_step on_binance_message on_mexc_message load_binance load_mexc reset_binance
      reset_mexc Binance.on_update Mexc.on_update Binance.apply_snapshot Mexc.apply_snapshot
  live_step-IsLive l (binance_message u) (b, m) =
      (on_message-IsSide _ l.binance u (on_update-IsKept Exchange.binance) b, m)
  live_step-IsLive l (mexc_message u) (b, m) =
      (b, on_message-IsSide _ l.mexc u (on_update-IsKept Exchange.mexc) m)
  live_step-IsLive l (binance_snapshot t s) (b, m) =
      (change-IsSide _ l.binance t (λ k. apply_snapshot-IsKept Exchange.binance t k s) b, m)
  live_step-IsLive l (mexc_snapshot t s) (b, m) =
      (b, change-IsSide _ l.mexc t (λ k. apply_snapshot-IsKept Exchange.mexc t k s) m)
  live_step-IsLive l (binance_reset t) (b, m) = (change-IsSide _ l.binance t (reset-IsKept t) b, m)
  live_step-IsLive l (mexc_reset t) (b, m) = (b, change-IsSide _ l.mexc t (reset-IsKept t) m)

  live_run-IsLive : (es : List (LiveEvent W)) (l : Live W) → IsLive l → IsLive (live_run l es)
  unfolding live_run
  live_run-IsLive [] l h = h
  live_run-IsLive (e ∷ es) l h = live_run-IsLive es (live_step l e) (live_step-IsLive l e h)

  -- However the handlers, the snapshots and the resets of the two exchanges interleave, no symbol stands
  -- twice on a side, and every local book is of its symbol and consistent.
  pub live_run-make-IsLive :
      (symbols : List Text) (es : List (LiveEvent W)) → IsLive (live_run (make_live symbols) es)
  live_run-make-IsLive symbols es = live_run-IsLive es _ (make_live-IsLive W symbols)
