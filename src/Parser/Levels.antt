-- ===== src/Parser/Levels.antt =====
-- What a JSON node shows of a price level, and that the level parser reads just that.
use arbitrage_engine.Base.{
  ◌≤◌, ◌≡◌, ◌↔◌, ◌⊎◌, inl, inr, refl, sym, subst, ◌∙◌, true, false, List, [], ◌∷◌, arith, Text, ok,
  ok_injective, bind_ok, Bool-cases,
}
use arbitrage_engine.Core.{PriceLevel}
use arbitrage_engine.Parser.{
  Json, parse_double_from_json_string, is_skipped, parse_level, parse_elements, parse_levels,
}

module _ {J W : Type 0} (j : Json J W) where
  -- A string that `stod` reads as the value, or a number.
  abbrev pub ShowsDouble : J → W → Type 0
  ShowsDouble n w =
      ((j.is_string n ≡ true) × ((s : Text) × ((j.text n ≡ ok s) × (j.stod s ≡ ok w))))
      ⊎ ((j.is_string n ≡ false) × ((j.is_number n ≡ true) × (j.double n ≡ ok w)))

  abbrev pub ShowsLevel : J → PriceLevel W → Type 0
  ShowsLevel n l = ShowsDouble (j.item n 0) l.price × ShowsDouble (j.item n 1) l.quantity

  -- An array of two elements or more.
  abbrev pub HasPair : J → Type 0
  HasPair n = (j.is_array n ≡ true) × (2 ≤ j.size n)

  -- The levels of the elements that are arrays of two or more, in order; other elements are passed over.
  pub data ShowsLevels : List J → List (PriceLevel W) → Type 0 where
    none_left : ShowsLevels [] []
    skips :
        {n : J} {ns : List J} {ls : List (PriceLevel W)}
        → ¬ HasPair n
        → ShowsLevels ns ls
        → ShowsLevels (n ∷ ns) ls
    shows :
        {n : J} {ns : List J} {l : PriceLevel W} {ls : List (PriceLevel W)}
        → HasPair n
        → ShowsLevel n l
        → ShowsLevels ns ls
        → ShowsLevels (n ∷ ns) (l ∷ ls)

  double_iff : (n : J) (w : W) → (parse_double_from_json_string j n ≡ ok w) ↔ ShowsDouble n w
  unfolding parse_double_from_json_string
  double_iff n w = (to, from)
    where
      to : parse_double_from_json_string j n ≡ ok w → ShowsDouble n w
      to h = elim (Bool-cases (j.is_string n)) [
        | inl e ↦
            let (s, (t, f)) = bind_ok (j.text n) _ w (rw (parse_double_from_json_string, e) at h) in
            inl (e, (s, (t, f)))
        | inr e ↦ inr (ground (arith, e, h))
      ]

      from : ShowsDouble n w → parse_double_from_json_string j n ≡ ok w
      from (inl (e, (s, (t, f)))) = rw (parse_double_from_json_string, e, t) f
      from (inr (e, (k, f))) = rw (parse_double_from_json_string, e, k) f

  level_iff : (n : J) (l : PriceLevel W) → (parse_level j n ≡ ok l) ↔ ShowsLevel n l
  unfolding parse_level
  level_iff n l = (to, from)
    where
      to : parse_level j n ≡ ok l → ShowsLevel n l
      to h =
          let (p, (a, h1)) = bind_ok (parse_double_from_json_string j (j.item n 0)) _ l h in
          let (q, (b, h2)) = bind_ok (parse_double_from_json_string j (j.item n 1)) _ l h1 in
          subst (ShowsLevel n) (ok_injective h2)
            ((double_iff (j.item n 0) p).0 a, (double_iff (j.item n 1) q).0 b)

      from : ShowsLevel n l → parse_level j n ≡ ok l
      from (a, b) =
          rw ((double_iff (j.item n 0) l.price).1 a, (double_iff (j.item n 1) l.quantity).1 b) refl

  is_skipped-HasPair : (n : J) → (is_skipped j n ≡ false) ↔ HasPair n
  is_skipped-HasPair n =
      (λ e. (ground (arith, e), ground (arith, e)), λ (a, b). ground (arith, a, b))

  skips-HasPair : (n : J) → ¬ HasPair n → is_skipped j n ≡ true
  skips-HasPair n k = elim (Bool-cases (is_skipped j n)) [
    | inl e ↦ e
    | inr e ↦ absurd (k ((is_skipped-HasPair n).0 e))
  ]

  elements_to :
      (ns : List J) (ls : List (PriceLevel W)) → parse_elements j ns ≡ ok ls → ShowsLevels ns ls
  unfolding parse_elements
  elements_to [] ls h = subst (ShowsLevels []) (ok_injective h) none_left
  elements_to (n ∷ ns) ls h = elim (Bool-cases (is_skipped j n)) [
    | inl e ↦
        skips (λ h. absurd (ground (arith, e, (is_skipped-HasPair n).1 h)))
          (elements_to ns ls (sym (rw (parse_elements, e) refl) ∙ h))
    | inr e ↦
        let (l, (a, h1)) = bind_ok (parse_level j n) _ ls (rw (parse_elements, e) at h) in
        let (rest, (b, h2)) = bind_ok (parse_elements j ns) _ ls h1 in
        subst (ShowsLevels (n ∷ ns)) (ok_injective h2)
          (shows ((is_skipped-HasPair n).0 e) ((level_iff n l).0 a) (elements_to ns rest b))
  ]

  elements_from :
      {ns : List J} {ls : List (PriceLevel W)} → ShowsLevels ns ls → parse_elements j ns ≡ ok ls
  unfolding parse_elements
  elements_from none_left = refl
  elements_from (skips {n} {ns} e s) = rw (parse_elements, skips-HasPair n e) (elements_from s)
  elements_from (shows {n} {ns} {l} e a s) =
      rw (parse_elements, (is_skipped-HasPair n).1 e, (level_iff n l).1 a, elements_from s) refl

  pub levels_iff :
      (n : J) (ls : List (PriceLevel W))
      → (parse_levels j n ≡ ok ls) ↔ ShowsLevels (j.elements n) ls
  unfolding parse_levels
  levels_iff n ls = (elements_to (j.elements n) ls, elements_from)
