-- ===== src/Prelude/Float.antt =====
-- float64 by its bit pattern. The arithmetic of the machine is a parameter: the operations that
-- the code calls, with laws that IEEE 754 comparison and rounding satisfy, NaN included.
use Prim.Native.Nat.{ℕ}
use mathlib.Core.Path.{◌≡◌}
use mathlib.Core.Logic.{◌⊎◌}
use mathlib.Core.Bool.{Bool, true, false}

abbrev pub Float64 : Type 0
Float64 = ℕ

abbrev pub Float32 : Type 0
Float32 = ℕ

pub record FloatOps : Type 0 where
  -- `a < b`, `a == b`
  pub lt : Float64 → Float64 → Bool
  pub eq : Float64 → Float64 → Bool
  pub add : Float64 → Float64 → Float64
  pub sub : Float64 → Float64 → Float64
  pub mul : Float64 → Float64 → Float64
  pub div : Float64 → Float64 → Float64
  -- math.Abs, math.Exp and -x
  pub abs : Float64 → Float64
  pub exp : Float64 → Float64
  pub neg : Float64 → Float64
  -- `float64(n)`, the constant n / d, and math.Ln2
  pub of_int : ℕ → Float64
  pub decimal : ℕ → ℕ → Float64
  pub ln2 : Float64
  pub is_nan : Float64 → Bool
  pub zero_lt_one : lt (of_int 0) (of_int 1) ≡ true
  pub lt_irrefl : (a : Float64) → lt a a ≡ false
  pub lt_trans : (a b c : Float64) → lt a b ≡ true → lt b c ≡ true → lt a c ≡ true
  -- A number lies on one side of any gap; NaN lies nowhere.
  pub lt_split :
      (a b c : Float64) → is_nan b ≡ false → lt a c ≡ true → (lt a b ≡ true) ⊎ (lt b c ≡ true)
  pub lt-nan : (a b : Float64) → is_nan b ≡ true → lt a b ≡ false
  pub mul-nan : (a b : Float64) → is_nan a ≡ true → is_nan (mul a b) ≡ true
  -- A product with a factor of at most 1 does not grow, and one of two factors that are not
  -- negative is not negative.
  pub mul_shrinks :
      (a b : Float64) → lt a (of_int 0) ≡ false → lt (of_int 1) b ≡ false → lt a (mul a b) ≡ false
  pub mul_nonneg :
      (a b : Float64)
      → lt a (of_int 0) ≡ false
      → lt b (of_int 0) ≡ false
      → lt (mul a b) (of_int 0) ≡ false
