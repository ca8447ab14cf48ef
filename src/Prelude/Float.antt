-- ===== src/Prelude/Float.antt =====
-- Go's `float64`, through the operations that the program applies to it. The type is a parameter;
-- `IsIeee` states what IEEE 754 arithmetic with rounding to nearest guarantees of them.
use Prim.Native.Nat.{ℕ, ◌*◌, ◌≤◌, ◌<◌, ◌^◌}
use mathlib.Core.Path.{◌≡◌}
use mathlib.Core.Bool.{Bool, true, false}
use kasirinaja.Prelude.Int.{ℤ, pos, ◌≤ℤ◌}

pub record Float64 (F : Type 0) : Type 0 where
  -- `float64(n)`, and a constant without a fraction
  pub of_int : ℤ → F
  -- the constant `n / 10 ^ k`
  pub decimal : ℕ → ℕ → F
  pub add : F → F → F
  pub sub : F → F → F
  pub mul : F → F → F
  pub div : F → F → F
  -- `a < b` and `a <= b`, false where one of them is NaN
  pub lt : F → F → Bool
  pub le : F → F → Bool
  -- `int64(math.Round(x))`
  pub round : F → ℤ

-- `2 ^ 53`: up to here every integer is a float, and rounds to itself.
abbrev pub exact_limit : ℕ
exact_limit = 2 ^ 53

pub record IsIeee (F : Type 0) (fl : Float64 F) : Type 0 where
  pub le_trans : (x y z : F) → fl.le x y ≡ true → fl.le y z ≡ true → fl.le x z ≡ true
  -- away from NaN, which is not `<=` itself, the order is total
  pub le_of_not-lt :
      (x y : F) → fl.le x x ≡ true → fl.le y y ≡ true → fl.lt x y ≡ false → fl.le y x ≡ true
  pub of_int_mono : (a b : ℤ) → a ≤ℤ b → fl.le (fl.of_int a) (fl.of_int b) ≡ true
  -- the product with a factor in range is monotone on arguments in range
  pub mul_mono :
      (c x y : F)
      → fl.le (fl.of_int (pos 0)) c ≡ true
      → fl.le c (fl.of_int (pos exact_limit)) ≡ true
      → fl.le (fl.of_int (pos 0)) x ≡ true
      → fl.le x y ≡ true
      → fl.le y (fl.of_int (pos exact_limit)) ≡ true
      → fl.le (fl.mul c x) (fl.mul c y) ≡ true
  pub div_mono :
      (n : ℕ) (x y : F)
      → 0 < n
      → n ≤ exact_limit
      → fl.le x y ≡ true
      → fl.le (fl.div x (fl.of_int (pos n))) (fl.div y (fl.of_int (pos n))) ≡ true
  pub mul-of_int :
      (a b : ℕ)
      → a * b ≤ exact_limit
      → fl.mul (fl.of_int (pos a)) (fl.of_int (pos b)) ≡ fl.of_int (pos (a * b))
  pub div-of_int :
      (a b : ℕ)
      → 0 < b
      → a * b ≤ exact_limit
      → fl.div (fl.of_int (pos (a * b))) (fl.of_int (pos b)) ≡ fl.of_int (pos a)
  -- rounding is monotone where the result is an `int64`
  pub round_mono :
      (x y : F)
      → fl.le (fl.of_int (pos 0)) x ≡ true
      → fl.le x y ≡ true
      → fl.le y (fl.of_int (pos exact_limit)) ≡ true
      → fl.round x ≤ℤ fl.round y
  pub round-of_int : (a : ℕ) → a ≤ exact_limit → fl.round (fl.of_int (pos a)) ≡ pos a
