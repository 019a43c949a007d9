-- ===== src/Live/Entries.antt =====
-- A property of every entry of a dictionary, through its operations.
use arbitrage_engine.Base.{
  ◌≡◌, sym, subst, some, List, [], ◌∷◌, ◌++◌, arith, Text, text_eq, text_eq_iff, has_value,
  Bool-cases, inl, inr,
}
use arbitrage_engine.Dict.{lookup, insert, emplace}

module _ {ℓ κ} {V : Type ℓ} (P : Text → V → Type κ) where
  abbrev pub AllEntries : List (Text × V) → Type κ
  AllEntries [] = Unit
  AllEntries ((k, v) ∷ m) = P k v × AllEntries m

  pub lookup-AllEntries :
      (k : Text) (m : List (Text × V)) {v : V} → AllEntries m → lookup k m ≡ some v → P k v
  unfolding lookup
  lookup-AllEntries k [] h e = absurd (cc)
  lookup-AllEntries k ((j, w) ∷ m) {v} (p, h) e = elim (Bool-cases (text_eq j k)) [
    | inl t ↦
        let same = (text_eq_iff j k).0 t in
        let here : w ≡ v = ground arith in subst (P k) here (subst (λ i. P i w) same p)
    | inr t ↦ lookup-AllEntries k m h (rw t at e)
  ]

  pub insert-AllEntries :
      (k : Text) (v : V) (m : List (Text × V)) → P k v → AllEntries m → AllEntries (insert k v m)
  unfolding insert
  insert-AllEntries k v [] p h = (p, tt)
  insert-AllEntries k v ((j, w) ∷ m) p (q, h) = elim (Bool-cases (text_eq j k)) [
    | inl t ↦ rw t (subst (λ i. P i v) (sym ((text_eq_iff j k).0 t)) p, h)
    | inr t ↦ rw t (q, insert-AllEntries k v m p h)
  ]

  append-AllEntries :
      (k : Text) (v : V) (m : List (Text × V))
      → P k v
      → AllEntries m
      → AllEntries (m ++ ((k, v) ∷ []))
  append-AllEntries k v [] p h = (p, tt)
  append-AllEntries k v (e ∷ m) p (q, h) = (q, append-AllEntries k v m p h)

  pub emplace-AllEntries :
      (k : Text) (v : V) (m : List (Text × V)) → P k v → AllEntries m → AllEntries (emplace k v m)
  unfolding emplace
  emplace-AllEntries k v m p h = elim (Bool-cases (has_value (lookup k m))) [
    | inl e ↦ rw e h
    | inr e ↦ rw e (append-AllEntries k v m p h)
  ]
