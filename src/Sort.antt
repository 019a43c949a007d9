-- ===== src/Sort.antt =====
-- `std::sort` with a comparator: what the sources use of it. Elements that the comparator does not
-- order end in some order, as the library's function leaves it open.
use mathlib.Core.List.{Perm}
use mathlib.Core.List.Perm
use arbitrage_engine.Base.{
  ◌≡◌, refl, ap, ◌∙◌, suc, length, inl, inr, Bool, true, false, List, [], ◌∷◌, arith, if◌then◌else◌,
  All, Bool-cases,
}

module _ {ℓ} {A : Type ℓ} (before : A → A → Bool) where
  unfoldable pub insert_by : A → List A → List A
  insert_by a [] = a ∷ []
  insert_by a (b ∷ bs) = if before a b then a ∷ b ∷ bs else b ∷ insert_by a bs

  unfoldable pub sort_by : List A → List A
  unfolding insert_by
  sort_by [] = []
  sort_by (a ∷ xs) = insert_by a (sort_by xs)

  insert_by-perm : (a : A) (bs : List A) → Perm (insert_by a bs) (a ∷ bs)
  unfolding insert_by
  insert_by-perm a [] = Perm.refl _
  insert_by-perm a (b ∷ bs) = elim (Bool-cases (before a b)) [
    | inl e ↦ rw e (Perm.refl _)
    | inr e ↦ rw e (Perm.trans (Perm.cons b (insert_by-perm a bs)) (Perm.swap a b bs))
  ]

  -- Sorting keeps the elements, each as often.
  pub sort_by-perm : (xs : List A) → Perm (sort_by xs) xs
  unfolding sort_by
  sort_by-perm [] = Perm.refl []
  sort_by-perm (a ∷ xs) = Perm.trans (insert_by-perm a (sort_by xs)) (Perm.cons a (sort_by-perm xs))

  length-insert_by : (a : A) (bs : List A) → length (insert_by a bs) ≡ suc (length bs)
  unfolding insert_by
  length-insert_by a [] = refl
  length-insert_by a (b ∷ bs) = elim (Bool-cases (before a b)) [
    | inl e ↦ rw e refl
    | inr e ↦ rw e (ap suc (length-insert_by a bs))
  ]

  pub length-sort_by : (xs : List A) → length (sort_by xs) ≡ length xs
  unfolding sort_by
  length-sort_by [] = refl
  length-sort_by (a ∷ xs) = length-insert_by a (sort_by xs) ∙ ap suc (length-sort_by xs)

  insert_by-All {κ} :
      (P : A → Type κ) (a : A) (bs : List A) → P a → All P bs → All P (insert_by a bs)
  unfolding insert_by
  insert_by-All P a [] p h = (p, h)
  insert_by-All P a (b ∷ bs) p (q, h) = elim (Bool-cases (before a b)) [
    | inl e ↦ rw e (p, (q, h))
    | inr e ↦ rw e (q, insert_by-All P a bs p h)
  ]

  pub sort_by-All {κ} : (P : A → Type κ) (xs : List A) → All P xs → All P (sort_by xs)
  unfolding sort_by
  sort_by-All P [] h = h
  sort_by-All P (a ∷ xs) (p, h) = insert_by-All P a (sort_by xs) p (sort_by-All P xs h)

  -- No element comes before the one that it follows.
  abbrev pub InOrder : List A → Type 0
  InOrder [] = Unit
  InOrder (a ∷ []) = Unit
  InOrder (a ∷ b ∷ xs) = (before b a ≡ false) × InOrder (b ∷ xs)

  module _ (asym : (x y : A) → before x y ≡ true → before y x ≡ false) where
    insert_by-InOrder : (a : A) (bs : List A) → InOrder bs → InOrder (insert_by a bs)
    unfolding insert_by
    insert_by-InOrder a [] h = tt
    insert_by-InOrder a (b ∷ []) h = ground (arith, asym a b)
    insert_by-InOrder a (b ∷ c ∷ bs) h =
        ground (arith, asym a b, asym a c, insert_by-InOrder a (c ∷ bs) h.1)

    pub sort_by-InOrder : (xs : List A) → InOrder (sort_by xs)
    unfolding sort_by
    sort_by-InOrder [] = tt
    sort_by-InOrder (a ∷ xs) = insert_by-InOrder a (sort_by xs) (sort_by-InOrder xs)
