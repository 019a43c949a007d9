-- ===== src/Strings/Laws.antt =====
-- Laws of the string operations.
use arbitrage_engine.Base.{
  ℕ, suc, ◌+◌, All-append, ◌≡◌, refl, ap, inl, inr, none, some, [], ◌∷◌, ◌++◌, arith, ◌≢◌, Text,
  length, take, drop, All, Option-cases,
}
use arbitrage_engine.Strings.{to_upper, find, starts_with}

-- A byte does not occur.
abbrev pub Lacks : ℕ → Text → Type 0
Lacks c = All (λ b. b ≢ c)

pub upper-upper : (s : Text) → to_upper (to_upper s) ≡ to_upper s
unfolding to_upper
upper-upper [] = refl
upper-upper (c ∷ s) = ground (arith, upper-upper s)

pub upper_empty : (s : Text) → s ≢ [] → to_upper s ≢ []
unfolding to_upper
upper_empty [] h = ground arith
upper_empty (c ∷ s) h = ground arith

-- Where a byte is found, the text before it lacks it.
pub take-find : (c : ℕ) (s : Text) (n : ℕ) → find (c ∷ []) s ≡ some n → Lacks c (take n s)
unfolding find starts_with
take-find c [] n h = ground arith
take-find c (b ∷ s) n h = elim (Option-cases (find (c ∷ []) s)) [
  | inl e ↦ ground (arith, e)
  | inr (k, e) ↦ ground (arith, e, take-find c s k e)
]

pub find-none : (c : ℕ) (s : Text) → find (c ∷ []) s ≡ none → Lacks c s
unfolding find starts_with
find-none c [] h = tt
find-none c (b ∷ s) h = ground (arith, find-none c s)

pub find-Lacks : (c : ℕ) (s : Text) → Lacks c s → find (c ∷ []) s ≡ none
unfolding find starts_with
find-Lacks c [] h = refl
find-Lacks c (b ∷ s) h = ground (arith, find-Lacks c s)

pub find-append : (c : ℕ) (s t : Text) → Lacks c s → find (c ∷ []) (s ++ (c ∷ t)) ≡ some (length s)
unfolding find starts_with
find-append c [] t h = ground arith
find-append c (b ∷ s) t h = ground (arith, find-append c s t)

pub take-append : (s t : Text) → take (length s) (s ++ t) ≡ s
take-append [] t = refl
take-append (b ∷ s) t = ap (λ r. b ∷ r) (take-append s t)

pub drop-append : (s t : Text) → drop (length s) (s ++ t) ≡ t
drop-append [] t = refl
drop-append (b ∷ s) t = drop-append s t

drop-suc-append : (c : ℕ) (s t : Text) → drop (suc (length s)) (s ++ (c ∷ t)) ≡ t
drop-suc-append c [] t = refl
drop-suc-append c (b ∷ s) t = drop-suc-append c s t

pub drop_past-append : (c : ℕ) (s t : Text) → drop (length s + 1) (s ++ (c ∷ t)) ≡ t
drop_past-append c s t =
    let e : length s + 1 ≡ suc (length s) = omega arith in rw e (drop-suc-append c s t)

pub Lacks-append : (c : ℕ) (s t : Text) → Lacks c s → Lacks c t → Lacks c (s ++ t)
Lacks-append c = All-append (λ b. b ≢ c)
