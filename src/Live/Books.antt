-- ===== src/Live/Books.antt =====
-- src/main.cpp, `run_live_arbitrage_scan`: which symbols have a local book, over any interleaving of the
-- critical sections.
use arbitrage_engine.Base.{
  false, ◌≡◌, ◌∙◌, refl, inl, inr, Bool, ◌||◌, Option, none, some, List, [], ◌∷◌, arith, Text,
  text_eq_iff, has_value, Option-cases,
}
use arbitrage_engine.Double.{Double}
use arbitrage_engine.Core.{BookUpdate}
use arbitrage_engine.Dict.{lookup, emplace}
use arbitrage_engine.Dict.Laws.{lookup-insert, lookup-emplace}
use arbitrage_engine.MarketData.Laws.{contains}
use arbitrage_engine.LocalBook.{LocalBook}
use arbitrage_engine.LocalBook.Binance
use arbitrage_engine.LocalBook.Mexc
use arbitrage_engine.Live.{
  Live, Side, Managers, make_live, make_managers, on_message, change, on_binance_message,
  on_mexc_message, load_binance, load_mexc, reset_binance, reset_mexc,
}
use arbitrage_engine.Live.Invariant.{
  IsLive, LiveEvent, live_step, live_run, live_run-make-IsLive, binance_message, mexc_message,
  binance_snapshot, mexc_snapshot, binance_reset, mexc_reset,
}

module _ {W : Type 0} where
  abbrev pub has_entry : Text → Side W → Bool
  has_entry t s = has_value (lookup t s.managers)

  make_managers_entry :
      (make : Text → LocalBook W) (t : Text) (symbols : List Text) (ms : Managers W)
      → has_value (lookup t (make_managers make symbols ms))
        ≡ (contains t symbols || has_value (lookup t ms))
  unfolding make_managers
  make_managers_entry make t [] ms = refl
  make_managers_entry make t (s ∷ symbols) ms =
      make_managers_entry make t symbols (emplace s (make s) ms)
      ∙ ground (arith, lookup-emplace t s (make s) ms, text_eq_iff s t, text_eq_iff t s)

  change_entry :
      (f : LocalBook W → LocalBook W) (s : Side W) (symbol t : Text)
      → has_entry t (change f s symbol) ≡ has_entry t s
  unfolding change
  change_entry f s symbol t = elim (Option-cases (lookup symbol s.managers)) [
    | inl e ↦ rw (change, e) refl
    | inr (m, e) ↦
        rw (change, e)
          (ground (arith, e, lookup-insert t symbol (f m) s.managers, text_eq_iff symbol t))
  ]

  on_message_entry :
      (f : LocalBook W → BookUpdate W → LocalBook W) (s : Side W) (u : Option (BookUpdate W))
      (t : Text)
      → has_entry t (on_message f s u) ≡ has_entry t s
  unfolding on_message
  on_message_entry f s none t = refl
  on_message_entry f s (some u) t = elim (Option-cases (lookup u.symbol s.managers)) [
    | inl e ↦ rw (on_message, e) refl
    | inr (m, e) ↦
        rw (on_message, e)
          (ground (arith, e, lookup-insert t u.symbol (f m u) s.managers, text_eq_iff u.symbol t))
  ]

  -- Each side has an entry for exactly the symbols.
  pub record IsFor (symbols : List Text) (l : Live W) : Type 0 where
    pub on_binance : (t : Text) → has_value (lookup t l.binance.managers) ≡ contains t symbols
    pub on_mexc : (t : Text) → has_value (lookup t l.mexc.managers) ≡ contains t symbols

or_false : (b : Bool) → (b || false) ≡ b
or_false b = ground arith

make_live-IsFor : (W : Type 0) (symbols : List Text) → IsFor symbols (make_live {W = W} symbols)
unfolding make_live lookup
make_live-IsFor W symbols = record {
  on_binance = λ t. make_managers_entry Binance.make t symbols [] ∙ or_false (contains t symbols);
  on_mexc = λ t. make_managers_entry Mexc.make t symbols [] ∙ or_false (contains t symbols);
}

module _ {W : Type 0} ⦃d : Double W⦄ (symbols : List Text) where
  step-IsFor : (l : Live W) (e : LiveEvent W) → IsFor symbols l → IsFor symbols (live_step l e)
  unfolding live_step on_binance_message on_mexc_message load_binance load_mexc reset_binance
      reset_mexc
  step-IsFor l (binance_message u) h = record {
    on_binance = λ t. on_message_entry _ l.binance u t ∙ h.on_binance t;
    on_mexc = h.on_mexc;
  }
  step-IsFor l (mexc_message u) h = record {
    on_binance = h.on_binance;
    on_mexc = λ t. on_message_entry _ l.mexc u t ∙ h.on_mexc t;
  }
  step-IsFor l (binance_snapshot k s) h = record {
    on_binance = λ t. change_entry _ l.binance k t ∙ h.on_binance t;
    on_mexc = h.on_mexc;
  }
  step-IsFor l (mexc_snapshot k s) h = record {
    on_binance = h.on_binance;
    on_mexc = λ t. change_entry _ l.mexc k t ∙ h.on_mexc t;
  }
  step-IsFor l (binance_reset k) h = record {
    on_binance = λ t. change_entry _ l.binance k t ∙ h.on_binance t;
    on_mexc = h.on_mexc;
  }
  step-IsFor l (mexc_reset k) h = record {
    on_binance = h.on_binance;
    on_mexc = λ t. change_entry _ l.mexc k t ∙ h.on_mexc t;
  }

  run-IsFor :
      (es : List (LiveEvent W)) (l : Live W) → IsFor symbols l → IsFor symbols (live_run l es)
  unfolding live_run
  run-IsFor [] l h = h
  run-IsFor (e ∷ es) l h = run-IsFor es (live_step l e) (step-IsFor l e h)

  -- However the handlers, the snapshots and the resets of the two exchanges interleave, each side has a
  -- local book under each of the symbols and under no other, no symbol stands twice, and the book is of
  -- that symbol and consistent.
  pub live_run-make-IsFor :
      (es : List (LiveEvent W))
      → IsFor symbols (live_run (make_live symbols) es) × IsLive (live_run (make_live symbols) es)
  live_run-make-IsFor es =
      (run-IsFor es _ (make_live-IsFor W symbols), live_run-make-IsLive symbols es)
