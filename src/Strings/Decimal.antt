-- ===== src/Strings/Decimal.antt =====
-- The digits of a number read back as the number.
use arbitrage_engine.Base.{
  ℕ, zero, suc, ◌+◌, ◌-◌, ◌*◌, ◌/◌, ◌%◌, ◌<◌, ◌≤◌, ◌≡◌, refl, ap, ◌∙◌, inl, inr, [], ◌∷◌, ◌==◌,
  arith, Text, All, ℤ, pos, negsuc, Bool-cases,
}
use arbitrage_engine.Strings.{digits, decimal, int_text}

-- A reader of decimal digits, after a number that stands before them.
abbrev pub read : ℕ → Text → ℕ
read n [] = n
read n (c ∷ s) = read (n * 10 + (c - 48)) s

read-step : (n : ℕ) (s : Text) → read (n / 10) ((48 + n % 10) ∷ s) ≡ read n s
read-step n s = let e : (n / 10) * 10 + (48 + n % 10 - 48) ≡ n = omega arith in rw e

read-digits : (fuel n : ℕ) (s : Text) → n < fuel → read 0 (digits fuel n s) ≡ read n s
unfolding digits
read-digits zero n s h = absurd (omega arith)
read-digits (suc fuel) n s h = elim (Bool-cases (n / 10 == 0)) [
  | inl e ↦
      rw (digits, e)
        (let q : 0 * 10 + (48 + n % 10 - 48) ≡ n = ground (arith, e) in ap (λ k. read k s) q)
  | inr e ↦
      rw (digits, e)
        (read-digits fuel (n / 10) ((48 + n % 10) ∷ s) (ground (arith, e, h)) ∙ read-step n s)
]

-- Every number has enough digits: they read back as the number.
pub read-decimal : (n : ℕ) → read 0 (decimal n) ≡ n
unfolding decimal
read-decimal n = read-digits (n + 1) n [] (omega arith)

abbrev pub IsDigit : ℕ → Type 0
IsDigit c = (48 ≤ c) × (c < 58)

digits-IsDigit : (fuel n : ℕ) (s : Text) → All IsDigit s → All IsDigit (digits fuel n s)
unfolding digits
digits-IsDigit zero n s h = h
digits-IsDigit (suc fuel) n s h =
    let c : IsDigit (48 + n % 10) = (omega arith, omega arith) in
    let rest = digits-IsDigit fuel (n / 10) ((48 + n % 10) ∷ s) (c, h) in
    elim (Bool-cases (n / 10 == 0)) [ inl e ↦ rw (digits, e) (c, h) | inr e ↦ rw (digits, e) rest ]

-- A row of decimal digits that reads as the number.
abbrev pub IsNumeral : ℕ → Text → Type 0
IsNumeral n t = All IsDigit t × (read 0 t ≡ n)

-- The numeral of an integer, after a minus sign if it is negative.
abbrev pub IsIntText : ℤ → Text → Type 0
IsIntText (pos n) t = IsNumeral n t
IsIntText (negsuc n) t = (u : Text) × ((t ≡ 45 ∷ u) × IsNumeral (n + 1) u)

decimal-IsNumeral : (n : ℕ) → IsNumeral n (decimal n)
unfolding decimal
decimal-IsNumeral n = (digits-IsDigit (n + 1) n [] tt, read-digits (n + 1) n [] (omega arith))

pub int_text-IsIntText : (k : ℤ) → IsIntText k (int_text k)
unfolding int_text
int_text-IsIntText (pos n) = decimal-IsNumeral n
int_text-IsIntText (negsuc n) = (decimal (n + 1), (refl, decimal-IsNumeral (n + 1)))
