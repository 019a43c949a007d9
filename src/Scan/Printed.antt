-- ===== src/Scan/Printed.antt =====
-- The first elements of a list in order: what `scan_live_store_once` prints.
use arbitrage_engine.Base.{
  ℕ, zero, suc, ◌≡◌, sym, Bool, List, [], ◌∷◌, arith, length, take, min, All,
}
use arbitrage_engine.Sort.{sort_by, length-sort_by, InOrder}

module _ {ℓ} {A : Type ℓ} where
  pub take-All {κ} : (P : A → Type κ) (n : ℕ) (xs : List A) → All P xs → All P (take n xs)
  take-All P zero xs h = tt
  take-All P (suc n) [] h = tt
  take-All P (suc n) (x ∷ xs) (p, h) = (p, take-All P n xs h)

  pub take-InOrder :
      (before : A → A → Bool) (n : ℕ) (xs : List A) → InOrder before xs → InOrder before (take n xs)
  take-InOrder before zero xs h = tt
  take-InOrder before (suc n) [] h = tt
  take-InOrder before (suc zero) (x ∷ xs) h = tt
  take-InOrder before (suc (suc n)) (x ∷ []) h = tt
  take-InOrder before (suc (suc n)) (x ∷ y ∷ xs) (p, h) =
      (p, take-InOrder before (suc n) (y ∷ xs) h)

  pub length-take : (n : ℕ) (xs : List A) → length (take n xs) ≡ min n (length xs)
  length-take zero xs = omega arith
  length-take (suc n) [] = omega arith
  length-take (suc n) (x ∷ xs) = omega (arith, length-take n xs)

  pub printed :
      (before : A → A → Bool) (n : ℕ) (xs : List A)
      → length (take n (sort_by before xs)) ≡ min n (length xs)
  printed before n xs = rw (sym (length-sort_by before xs)) (length-take n (sort_by before xs))
