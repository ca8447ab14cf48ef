-- ===== src/Tests/Fixed.antt =====
-- The floats of the witnesses: numbers from zero on, in steps of 1/10000. They meet `IsIeee`.
use native.Mathlib.Nat.{le_trans, div-mul-le_self, le-div_iff_mul-le, div-eq_of_eq-mul_left}
use kasirinaja.Prelude.{
  ℕ, ◌+◌, ◌-◌, ◌*◌, ◌/◌, ◌^◌, ◌≤◌, ◌<◌, ℤ, pos, negsuc, pos_part, ◌≤ℤ◌, ◌≡◌, true, ltb, leb, leb→le,
  arith, Float64, IsIeee, ap,
}

abbrev pub Fixed : Type 0
Fixed = ℕ

abbrev pub scale : ℕ
scale = 10_000

instance abbrev pub fixed : Float64 Fixed
fixed = record {
  of_int = λ n. pos_part n * scale;
  decimal = λ n k. n * scale / 10 ^ k;
  add = λ x y. x + y;
  sub = λ x y. x - y;
  mul = λ x y. x * y / scale;
  div = λ x y. x * scale / y;
  lt = ltb;
  le = leb;
  round = λ x. pos ((x + 5000) / scale);
}

le→leb : (a b : ℕ) → a ≤ b → leb a b ≡ true
le→leb a b h = ground arith

mul_mono_lem : (c x y : ℕ) → x ≤ y → c * x / scale ≤ c * y / scale
mul_mono_lem c x y h = let grown : c * x ≤ c * y = grind arith in omega arith

div_mono_lem : (n x y : ℕ) → 0 < n → x ≤ y → x * scale / (n * scale) ≤ y * scale / (n * scale)
div_mono_lem n x y p h =
    (le-div_iff_mul-le {k = n * scale} (omega arith)).1
      (le_trans (div-mul-le_self (x * scale) (n * scale)) (omega arith))

div_lem : (a b : ℕ) → 0 < b → a * b * scale * scale / (b * scale) ≡ a * scale
div_lem a b h =
    div-eq_of_eq-mul_left {n = b * scale} {m = a * b * scale * scale} {k = a * scale} (omega arith)
      (omega arith)

pos_part_mono : (a b : ℤ) → a ≤ℤ b → pos_part a * scale ≤ pos_part b * scale
pos_part_mono (pos n) (pos m) h = omega arith
pos_part_mono (pos n) (negsuc m) h = omega arith
pos_part_mono (negsuc n) b h = omega arith

pub fixed-IsIeee : IsIeee Fixed fixed
fixed-IsIeee = record {
  le_trans = λ x y z p q. le→leb _ _ (omega (arith, leb→le x y p, leb→le y z q));
  le_of_not-lt = λ x y p q r. ground arith;
  of_int_mono = λ a b h. le→leb _ _ (pos_part_mono a b h);
  mul_mono = λ c x y p p' q' q q''. le→leb _ _ (mul_mono_lem c x y (leb→le x y q));
  div_mono = λ n x y p p' q. le→leb _ _ (div_mono_lem n x y p (leb→le x y q));
  mul-of_int = λ a b h. omega arith;
  div-of_int = λ a b p h. div_lem a b p;
  round_mono = λ x y p q r. omega (arith, leb→le x y q);
  round-of_int = λ a h. ap pos (omega arith);
}
