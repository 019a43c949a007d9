-- ===== src/Double.antt =====
-- What the code does with a `double`, as an interface: the type is the machine's, and no file of the
-- repository defines it.
use arbitrage_engine.Base.{
  ℤ, pos_part, ℕ, ◌+◌, ◌-◌, ◌*◌, ◌/◌, ◌≡◌, ◌⊎◌, Bool, true, false, not, ◌&&◌, arith, ltb, leb,
}

-- The comparisons and operators of C++, with the constants that the sources write.
pub record Double (W : Type 0) : Type 0 where
  pub nought : W
  -- `kEpsilon`, 1e-12
  pub epsilon : W
  -- `kBpsMultiplier`, 10000.0
  pub bps : W
  pub lt : W → W → Bool
  pub le : W → W → Bool
  pub add : W → W → W
  pub sub : W → W → W
  pub mul : W → W → W
  pub div : W → W → W
  -- `static_cast<double>(int)`
  pub of_int : ℤ → W

-- NaN is the value that is not `<=` itself.
abbrev pub IsNumber : {W : Type 0} ⦃d : Double W⦄ → W → Type 0
IsNumber ⦃d⦄ x = d.le x x ≡ true

-- Neither of two values is below the other: the test by which a `std::map` finds a key.
abbrev pub same : {W : Type 0} ⦃d : Double W⦄ → W → W → Bool
same ⦃d⦄ x y = not (d.lt x y) && not (d.lt y x)

-- The comparisons of IEEE 754: `<` is a strict order, with NaN outside it, and away from NaN two
-- values that are not ordered are interchangeable.
pub record IsOrdered (W : Type 0) ⦃d : Double W⦄ : Type 0 where
  pub lt_asym : (x y : W) → d.lt x y ≡ true → d.lt y x ≡ false
  pub lt_trans : (x y z : W) → d.lt x y ≡ true → d.lt y z ≡ true → d.lt x z ≡ true
  pub lt_split : (x y z : W) → IsNumber z → d.lt x y ≡ true → (d.lt x z ≡ true) ⊎ (d.lt z y ≡ true)

-- Whole numbers meet the interface and its laws. Only the witnesses use them.
instance abbrev pub nat_double : Double ℕ
nat_double = record {
  nought = 0;
  epsilon = 0;
  bps = 10000;
  lt = ltb;
  le = leb;
  add = λ a b. a + b;
  sub = λ a b. a - b;
  mul = λ a b. a * b;
  div = λ a b. a / b;
  of_int = pos_part;
}

pub nat-IsOrdered : IsOrdered ℕ
nat-IsOrdered = ground arith
