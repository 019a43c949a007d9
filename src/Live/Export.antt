-- ===== src/Live/Export.antt =====
-- What the stores built from the local books hold, and what a message changes.
use arbitrage_engine.Base.{
  ◌≡◌, refl, sym, inl, inr, ◌∙◌, ap, true, Option, none, some, List, [], ◌∷◌, arith, Text, text_eq,
  text_eq_iff, Option-cases, if◌then◌else◌,
}
use mathlib.Core.Option
use arbitrage_engine.Double.{Double}
use arbitrage_engine.Core.{Exchange, exchange_eq, BookUpdate}
use arbitrage_engine.Dict.{lookup}
use arbitrage_engine.Dict.Laws.{IsDistinct, lookup-insert}
use arbitrage_engine.OrderBook.{OrderBook}
use arbitrage_engine.LocalBook.{LocalBook, is_ready}
use arbitrage_engine.LocalBook.Invariant.{IsConsistent}
use arbitrage_engine.MarketData.{Store, empty_store, get_book, set_book, books_for}
use arbitrage_engine.MarketData.Laws.{get_book-set_book}
use arbitrage_engine.Live.{
  Live, Side, Managers, make_live, on_message, on_binance_message, on_mexc_message, binance_update,
  mexc_update, export_ready, build_live_store_from_managers,
}
use arbitrage_engine.Live.Entries.{AllEntries, lookup-AllEntries}
use arbitrage_engine.Live.Invariant.{IsKept, LiveEvent, live_run, live_run-make-IsLive}

pub get_book-empty :
    (W : Type 0) (e : Exchange) (symbol : Text) → get_book (empty_store {W = W}) e symbol ≡ none
unfolding get_book books_for lookup
get_book-empty W Exchange.binance symbol = refl
get_book-empty W Exchange.mexc symbol = refl

module _ {W : Type 0} where
  -- The book of a manager that is there and ready; else what was there before.
  abbrev pub ready_or : Option (LocalBook W) → Option (OrderBook W) → Option (OrderBook W)
  ready_or none old = old
  ready_or (some m) old = if is_ready m.status then some m.book else old

  pub get_book-export_ready :
      (e f : Exchange) (ms : Managers W) (store : Store W) (symbol : Text)
      → IsDistinct ms
      → get_book (export_ready e ms store) f symbol ≡ (
          if exchange_eq e f
          then ready_or (lookup symbol ms) (get_book store f symbol)
          else get_book store f symbol)
  unfolding export_ready lookup
  get_book-export_ready e f [] store symbol d = ground arith
  get_book-export_ready e f ((k, m) ∷ ms) store symbol (n, d) =
      let next = if is_ready m.status then set_book store e k m.book else store in
      get_book-export_ready e f ms next symbol d
      ∙ ground (arith, get_book-set_book store e f k symbol m.book, text_eq_iff k symbol)

  abbrev pub managers_of : Live W → Exchange → Managers W
  managers_of l Exchange.binance = l.binance.managers
  managers_of l Exchange.mexc = l.mexc.managers

  -- The store that the scanner reads.
  abbrev pub live_store : Live W → Store W
  live_store l = build_live_store_from_managers l.binance.managers l.mexc.managers

  -- If no symbol stands twice on a side, the store holds for each exchange and symbol the book of the
  -- local book that is there and ready, and nothing for any other.
  pub get_book-live_store :
      (l : Live W) (e : Exchange) (symbol : Text)
      → IsDistinct l.binance.managers
      → IsDistinct l.mexc.managers
      → get_book (live_store l) e symbol ≡ ready_or (lookup symbol (managers_of l e)) none
  unfolding build_live_store_from_managers
  get_book-live_store l Exchange.binance symbol b m =
      get_book-export_ready Exchange.mexc Exchange.binance l.mexc.managers _ symbol m
      ∙ get_book-export_ready Exchange.binance Exchange.binance l.binance.managers empty_store
          symbol b
      ∙ ap (ready_or (lookup symbol l.binance.managers)) (get_book-empty W Exchange.binance symbol)
  get_book-live_store l Exchange.mexc symbol b m =
      get_book-export_ready Exchange.mexc Exchange.mexc l.mexc.managers _ symbol m
      ∙ ap (ready_or (lookup symbol l.mexc.managers)) (
          get_book-export_ready Exchange.binance Exchange.mexc l.binance.managers empty_store symbol
            b
          ∙ get_book-empty W Exchange.mexc symbol)

  lookup-on_message :
      (f : LocalBook W → BookUpdate W → LocalBook W) (s : Side W) (u : BookUpdate W) (symbol : Text)
      → lookup symbol (on_message f s (some u)).managers ≡ (
          if text_eq u.symbol symbol
          then Option.map (λ m. f m u) (lookup symbol s.managers)
          else lookup symbol s.managers)
  unfolding on_message
  lookup-on_message f s u symbol = elim (Option-cases (lookup u.symbol s.managers)) [
    | inl e ↦ rw (e, on_message) (ground (arith, e, text_eq_iff u.symbol symbol))
    | inr (m, e) ↦
        rw (e, on_message)
          (ground (
            arith,
            e,
            lookup-insert symbol u.symbol (f m u) s.managers,
            text_eq_iff u.symbol symbol,
          ))
  ]

module _ {W : Type 0} ⦃d : Double W⦄ where
  -- An update on the Binance side is given to the local book of its own symbol, if there is one, and
  -- changes no other book of either side.
  pub lookup-on_binance_message :
      (l : Live W) (u : BookUpdate W) (symbol : Text)
      → let l' = on_binance_message l (some u) in
        (lookup symbol l'.binance.managers ≡ (
          if text_eq u.symbol symbol
          then Option.map (λ m. binance_update m u) (lookup symbol l.binance.managers)
          else lookup symbol l.binance.managers))
        × (l'.mexc ≡ l.mexc)
  unfolding on_binance_message
  lookup-on_binance_message l u symbol = (lookup-on_message binance_update l.binance u symbol, refl)

  -- An update on the MEXC side is given to the local book of its own symbol, if there is one, and
  -- changes no other book of either side.
  pub lookup-on_mexc_message :
      (l : Live W) (u : BookUpdate W) (symbol : Text)
      → let l' = on_mexc_message l (some u) in
        (lookup symbol l'.mexc.managers ≡ (
          if text_eq u.symbol symbol
          then Option.map (λ m. mexc_update m u) (lookup symbol l.mexc.managers)
          else lookup symbol l.mexc.managers))
        × (l'.binance ≡ l.binance)
  unfolding on_mexc_message
  lookup-on_mexc_message l u symbol = (lookup-on_message mexc_update l.mexc u symbol, refl)

  ready_or-initialized :
      (symbol : Text) (m : Option (LocalBook W)) (b : OrderBook W)
      → ((k : LocalBook W) → m ≡ some k → IsConsistent k)
      → ready_or m none ≡ some b
      → b.initialized ≡ true
  ready_or-initialized symbol none b c e = absurd (cc)
  ready_or-initialized symbol (some k) b c e = ground (arith, c k refl)

  -- However the threads interleave, every book that the scanner finds in the store is initialised.
  pub live_store-initialized :
      (symbols : List Text) (es : List (LiveEvent W)) (e : Exchange) (symbol : Text)
      (b : OrderBook W)
      → get_book (live_store (live_run (make_live symbols) es)) e symbol ≡ some b
      → b.initialized ≡ true
  live_store-initialized symbols es e symbol b found =
      let l = live_run (make_live symbols) es in
      let (bi, me) = live_run-make-IsLive symbols es in
      ready_or-initialized symbol (lookup symbol (managers_of l e)) b
        (consistent e l bi.0 me.0 symbol) (sym (get_book-live_store l e symbol bi.1 me.1) ∙ found)
    where
      consistent :
          (e : Exchange) (l : Live W)
          → AllEntries IsKept l.binance.managers
          → AllEntries IsKept l.mexc.managers
          → (symbol : Text) (k : LocalBook W) → lookup symbol (managers_of l e) ≡ some k
          → IsConsistent k
      consistent Exchange.binance l bi me symbol k q = (lookup-AllEntries IsKept symbol _ bi q).1
      consistent Exchange.mexc l bi me symbol k q = (lookup-AllEntries IsKept symbol _ me q).1
