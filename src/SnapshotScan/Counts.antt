-- ===== src/SnapshotScan/Counts.antt =====
-- The symbols that the loops of the two snapshot scans count.
use arbitrage_engine.Base.{
  ℕ, suc, ◌+◌, ◌%◌, ◌≡◌, Bool, none, some, List, [], ◌∷◌, ◌++◌, if◌then◌else◌, arith, inc64,
  u64_mod, Text,
}

-- The symbols that pass a test, and how many they are.
abbrev pub keep_if : (Text → Bool) → List Text → List Text
keep_if test [] = []
keep_if test (s ∷ ss) = let rest = keep_if test ss in if test s then s ∷ rest else rest

abbrev pub count_if : (Text → Bool) → List Text → ℕ
count_if test [] = 0
count_if test (s ∷ ss) = let rest = count_if test ss in if test s then suc rest else rest

pub counts :
    (test : Text → Bool) (s : Text) (ss : List Text) (n : ℕ)
    → count_if test ss + (if test s then suc n else n) ≡ count_if test (s ∷ ss) + n
counts test s ss n = ground arith

pub add_zero : (n : ℕ) → n + 0 ≡ n
add_zero n = omega arith

pub is_none_or_some : {A : Type 0} {x : A} → ¬ (none ≡ some x)
is_none_or_some h = cc

pub keep_append :
    (test : Text → Bool) (s : Text) (ss : List Text)
    → keep_if test (s ∷ []) ++ keep_if test ss ≡ keep_if test (s ∷ ss)
keep_append test s ss = ground arith

pub step_mod : (n k : ℕ) → k ≡ n % u64_mod → inc64 k ≡ suc n % u64_mod
step_mod n k h = omega (arith, h)
