-- ===== src/LocalLiveAll/Status.antt =====
-- How many local books have left the wait for their snapshot, through the steps on a dictionary of them.
use arbitrage_engine.Base.{
  ℕ, ◌+◌, ◌≡◌, refl, ◌∙◌, inl, inr, Bool, true, Option, some, List, [], ◌∷◌, ◌++◌, arith, Text,
  text_eq, text_eq_iff, Bool-cases, if◌then◌else◌,
}
use mathlib.Core.Option
use arbitrage_engine.Double.{Double}
use arbitrage_engine.Core.{Exchange, BookUpdate}
use arbitrage_engine.Dict.{lookup, insert, emplace}
use arbitrage_engine.Dict.Laws.{IsDistinct, lookup-insert, insert-IsDistinct}
use arbitrage_engine.OrderBook
use arbitrage_engine.LocalBook.{
  LocalBook, is_waiting, push_buffer, on_update, apply_update_to_ready_book,
}
use arbitrage_engine.LocalBook.Invariant.{IsConsistent}
use arbitrage_engine.Live.{Managers, make_managers}
use arbitrage_engine.Live.Entries.{AllEntries, insert-AllEntries}
use arbitrage_engine.Live.Invariant.{IsKept}
use arbitrage_engine.Live.Sync.{count_ready, count_need_resync}

module _ {W : Type 0} where
  abbrev pub settled : LocalBook W → ℕ
  settled m = if is_waiting m.status then 0 else 1

  -- The number of books that do not wait for a snapshot.
  unfoldable pub count_settled : Managers W → ℕ
  count_settled [] = 0
  count_settled ((k, m) ∷ ms) = settled m + count_settled ms

  pub count_ready-count_need_resync :
      (ms : Managers W) → count_ready ms + count_need_resync ms ≡ count_settled ms
  unfolding count_ready count_need_resync count_settled
  count_ready-count_need_resync [] = refl
  count_ready-count_need_resync ((k, m) ∷ ms) = ground (arith, count_ready-count_need_resync ms)

  pub count_settled-insert :
      (k : Text) (m m' : LocalBook W) (ms : Managers W)
      → lookup k ms ≡ some m
      → count_settled (insert k m' ms) + settled m ≡ count_settled ms + settled m'
  unfolding count_settled insert lookup
  count_settled-insert k m m' [] h = absurd (cc)
  count_settled-insert k m m' ((j, v) ∷ ms) h = elim (Bool-cases (text_eq j k)) [
    | inl t ↦ let same : v ≡ m = ground (arith, t, h) in rw (t, same) (omega arith)
    | inr t ↦ rw t (omega (arith, count_settled-insert k m m' ms (rw t at h)))
  ]

  count_settled-append :
      (k : Text) (m : LocalBook W) (ms : Managers W)
      → count_settled (ms ++ ((k, m) ∷ [])) ≡ count_settled ms + settled m
  unfolding count_settled
  count_settled-append k m [] = omega arith
  count_settled-append k m (p ∷ ms) = omega (arith, count_settled-append k m ms)

  emplace_waiting :
      (k : Text) (m : LocalBook W) (ms : Managers W)
      → is_waiting m.status ≡ true
      → count_settled (emplace k m ms) ≡ count_settled ms
  unfolding emplace
  emplace_waiting k m ms w = ground (arith, count_settled-append k m ms, w)

  pub count_settled-make_managers :
      (make : Text → LocalBook W) (waits : (t : Text) → is_waiting (make t).status ≡ true)
      (symbols : List Text) (ms : Managers W)
      → count_settled (make_managers make symbols ms) ≡ count_settled ms
  unfolding make_managers
  count_settled-make_managers make waits [] ms = refl
  count_settled-make_managers make waits (t ∷ symbols) ms =
      count_settled-make_managers make waits symbols (emplace t (make t) ms)
      ∙ emplace_waiting t (make t) ms (waits t)

  -- Each book is of its symbol and consistent, and no symbol stands twice.
  abbrev pub AreKept : Managers W → Type 0
  AreKept ms = AllEntries IsKept ms × IsDistinct ms

  pub insert-AreKept :
      (k : Text) (m : LocalBook W) (ms : Managers W)
      → IsKept k m
      → AreKept ms
      → AreKept (insert k m ms)
  insert-AreKept k m ms h (a, b) = (insert-AllEntries IsKept k m ms h a, insert-IsDistinct k m ms b)

  -- Whether the book of a symbol waits for its snapshot, if there is one.
  abbrev pub waits_at : Text → Managers W → Option Bool
  waits_at t ms = Option.map (λ (m : LocalBook W). is_waiting m.status) (lookup t ms)

  pub waits_at-insert :
      (t k : Text) (m m' : LocalBook W) (ms : Managers W)
      → lookup k ms ≡ some m
      → is_waiting m'.status ≡ is_waiting m.status
      → waits_at t (insert k m' ms) ≡ waits_at t ms
  waits_at-insert t k m m' ms h s = ground (arith, lookup-insert t k m' ms, text_eq_iff k t, h, s)

  -- The step keeps the books, and none of them starts or ends its wait for a snapshot.
  pub record IsQuiet (ms ms' : Managers W) : Type 0 where
    pub kept : AreKept ms'
    pub count : count_settled ms' ≡ count_settled ms
    pub waits : (t : Text) → waits_at t ms' ≡ waits_at t ms

  pub IsQuiet-refl : (ms : Managers W) → AreKept ms → IsQuiet ms ms
  IsQuiet-refl ms h = record { kept = h; count = refl; waits = λ t. refl }

  pub IsQuiet-trans : (a b c : Managers W) → IsQuiet a b → IsQuiet b c → IsQuiet a c
  IsQuiet-trans a b c p q = record {
    kept = q.kept;
    count = q.count ∙ p.count;
    waits = λ t. q.waits t ∙ p.waits t;
  }

  pub insert-IsQuiet :
      (k : Text) (m m' : LocalBook W) (ms : Managers W)
      → lookup k ms ≡ some m
      → IsKept k m'
      → is_waiting m'.status ≡ is_waiting m.status
      → AreKept ms
      → IsQuiet ms (insert k m' ms)
  insert-IsQuiet k m m' ms h own s kept = record {
    kept = insert-AreKept k m' ms own kept;
    count = ground (arith, count_settled-insert k m m' ms h, s);
    waits = λ t. waits_at-insert t k m m' ms h s;
  }

module _ {W : Type 0} ⦃d : Double W⦄ where
  -- An update does not start or end the wait of a book.
  pub on_update-is_waiting :
      (e : Exchange) (m : LocalBook W) (u : BookUpdate W)
      → IsConsistent m
      → is_waiting (on_update e m u).0.status ≡ is_waiting m.status
  unfolding on_update push_buffer apply_update_to_ready_book OrderBook.apply_update
  on_update-is_waiting e m u c = ground (arith, c.loaded)
