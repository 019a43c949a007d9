-- ===== src/Dict/Laws.antt =====
-- What `insert` and `emplace` do to each key, and that no key stands twice.
use arbitrage_engine.Base.{
  ◌+◌, ◌≡◌, refl, none, some, List, [], ◌∷◌, ◌++◌, arith, if◌then◌else◌, Text, text_eq, text_eq_iff,
  has_value, length, Bool-cases, inl, inr,
}
use arbitrage_engine.Dict.{lookup, insert, emplace}

module _ {ℓ} {V : Type ℓ} where
  pub lookup-insert :
      (j k : Text) (v : V) (m : List (Text × V))
      → lookup j (insert k v m) ≡ (if text_eq k j then some v else lookup j m)
  unfolding lookup insert
  lookup-insert j k v [] = refl
  lookup-insert j k v ((i, w) ∷ m) =
      ground (arith, text_eq_iff k j, text_eq_iff i k, text_eq_iff i j, lookup-insert j k v m)

  -- No key stands twice.
  abbrev pub IsDistinct : List (Text × V) → Type ℓ
  IsDistinct [] = Unit
  IsDistinct ((k, v) ∷ m) = (lookup k m ≡ none) × IsDistinct m

  pub insert-IsDistinct :
      (k : Text) (v : V) (m : List (Text × V)) → IsDistinct m → IsDistinct (insert k v m)
  unfolding insert lookup
  insert-IsDistinct k v [] d = (refl, tt)
  insert-IsDistinct k v ((j, w) ∷ m) (a, d) = elim (Bool-cases (text_eq j k)) [
    | inl e ↦ rw e (a, d)
    | inr e ↦ rw e (
      ground (arith, lookup-insert j k v m, text_eq_iff k j, text_eq_iff j k),
      insert-IsDistinct k v m d,
    )
  ]

  pub length-insert :
      (k : Text) (v : V) (m : List (Text × V))
      → length (insert k v m) ≡ (if has_value (lookup k m) then length m else length m + 1)
  unfolding insert lookup
  length-insert k v [] = ground arith
  length-insert k v ((j, w) ∷ m) = ground (arith, length-insert k v m)

  lookup-append :
      (j k : Text) (v : V) (m : List (Text × V))
      → lookup j (m ++ ((k, v) ∷ []))
        ≡ (if has_value (lookup j m) then lookup j m else if text_eq k j then some v else none)
  unfolding lookup
  lookup-append j k v [] = refl
  lookup-append j k v ((i, w) ∷ m) = ground (arith, lookup-append j k v m)

  -- What a lookup finds after `emplace`.
  pub lookup-emplace :
      (j k : Text) (v : V) (m : List (Text × V))
      → lookup j (emplace k v m)
        ≡ (if has_value (lookup j m) then lookup j m else if text_eq k j then some v else none)
  unfolding emplace
  lookup-emplace j k v m = ground (arith, lookup-append j k v m, text_eq_iff k j)

  append-IsDistinct :
      (k : Text) (v : V) (m : List (Text × V))
      → lookup k m ≡ none
      → IsDistinct m
      → IsDistinct (m ++ ((k, v) ∷ []))
  unfolding lookup
  append-IsDistinct k v [] n d = (refl, tt)
  append-IsDistinct k v ((j, w) ∷ m) n (a, d) = elim (Bool-cases (text_eq j k)) [
    | inl e ↦ absurd (ground arith)
    | inr e ↦ (
      ground (arith, lookup-append j k v m, text_eq_iff k j, text_eq_iff j k),
      append-IsDistinct k v m (ground arith) d,
    )
  ]

  pub emplace-IsDistinct :
      (k : Text) (v : V) (m : List (Text × V)) → IsDistinct m → IsDistinct (emplace k v m)
  unfolding emplace
  emplace-IsDistinct k v m d = elim (Bool-cases (has_value (lookup k m))) [
    | inl e ↦ rw e d
    | inr e ↦ rw e (append-IsDistinct k v m (ground arith) d)
  ]
