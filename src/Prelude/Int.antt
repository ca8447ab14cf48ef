-- ===== src/Prelude/Int.antt =====
-- Go's `int` and `int64`: integers over the native numbers, with the wrap-around of 64 bits.
use Prim.Native.Nat.{ℕ, suc, ◌+◌, ◌-◌, ◌*◌, ◌%◌, ◌^◌, ◌≤◌, ◌<◌}
use mathlib.Core.Path.{◌≡◌, ◌∙◌, refl, ap}
use mathlib.Core.Bool.{Bool, ◌&&◌}
use native.Mathlib.Omega.{arith}
use kasirinaja.Prelude.Tests.{ltb→le, ltb, leb, ◌==◌, if◌then◌else◌}

-- `negsuc n` is -(n + 1).
pub data ℤ : Type 0 where
  pos : ℕ → ℤ
  negsuc : ℕ → ℤ

abbrev pub pos_part : ℤ → ℕ
pos_part (pos n) = n
pos_part (negsuc _) = 0

abbrev pub neg_part : ℤ → ℕ
neg_part (pos _) = 0
neg_part (negsuc n) = suc n

-- a - b, as an integer
abbrev pub sub_ℕ : ℕ → ℕ → ℤ
sub_ℕ a b = if leb b a then pos (a - b) else negsuc (b - a - 1)

infixl 65 ◌+ℤ◌ ◌-ℤ◌
infixl 70 ◌*ℤ◌
infix 50 ◌≤ℤ◌ ◌<ℤ◌
unfoldable pub ◌+ℤ◌ : ℤ → ℤ → ℤ
a +ℤ b = sub_ℕ (pos_part a + pos_part b) (neg_part a + neg_part b)

unfoldable pub ◌-ℤ◌ : ℤ → ℤ → ℤ
a -ℤ b = sub_ℕ (pos_part a + neg_part b) (neg_part a + pos_part b)

unfoldable pub ◌*ℤ◌ : ℤ → ℤ → ℤ
a *ℤ b =
    sub_ℕ (pos_part a * pos_part b + neg_part a * neg_part b)
      (pos_part a * neg_part b + neg_part a * pos_part b)

abbrev pub ◌≤ℤ◌ : ℤ → ℤ → Type 0
a ≤ℤ b = pos_part a + neg_part b ≤ pos_part b + neg_part a

abbrev pub ◌<ℤ◌ : ℤ → ℤ → Type 0
a <ℤ b = pos_part a + neg_part b < pos_part b + neg_part a

abbrev pub ltb_ℤ : ℤ → ℤ → Bool
ltb_ℤ a b = ltb (pos_part a + neg_part b) (pos_part b + neg_part a)

abbrev pub leb_ℤ : ℤ → ℤ → Bool
leb_ℤ a b = leb (pos_part a + neg_part b) (pos_part b + neg_part a)

abbrev pub eqb_ℤ : ℤ → ℤ → Bool
eqb_ℤ a b = (pos_part a == pos_part b) && (neg_part a == neg_part b)

-- The value that the low 64 bits of an integer stand for.
unfoldable pub wrap : ℤ → ℤ
wrap (pos n) = let m = n % 2 ^ 64 in if ltb m (2 ^ 63) then pos m else negsuc (2 ^ 64 - 1 - m)
wrap (negsuc n) = let m = n % 2 ^ 64 in if ltb m (2 ^ 63) then negsuc m else pos (2 ^ 64 - 1 - m)

unfoldable pub add64 : ℤ → ℤ → ℤ
unfolding wrap ◌+ℤ◌
add64 a b = wrap (a +ℤ b)

unfoldable pub sub64 : ℤ → ℤ → ℤ
unfolding wrap ◌-ℤ◌
sub64 a b = wrap (a -ℤ b)

unfoldable pub mul64 : ℤ → ℤ → ℤ
unfolding wrap ◌*ℤ◌
mul64 a b = wrap (a *ℤ b)

-- The range of `int64`.
abbrev pub Fits : ℤ → Type 0
Fits a = (pos_part a < 2 ^ 63) × (neg_part a ≤ 2 ^ 63)

pub wrap_of_Fits : (a : ℤ) → Fits a → wrap a ≡ a
unfolding wrap
wrap_of_Fits (pos n) h = ground arith
wrap_of_Fits (negsuc n) h = ground arith

pub wrap-Fits : (a : ℤ) → Fits (wrap a)
unfolding wrap
wrap-Fits (pos n) = ground arith
wrap-Fits (negsuc n) = ground arith

-- With these the operations can stay shut, at any depth.
pub +ℤ_parts :
    (a b : ℤ)
    → pos_part (a +ℤ b) + neg_part a + neg_part b ≡ neg_part (a +ℤ b) + pos_part a + pos_part b
unfolding ◌+ℤ◌
+ℤ_parts a b = ground arith

pub -ℤ_parts :
    (a b : ℤ)
    → pos_part (a -ℤ b) + neg_part a + pos_part b ≡ neg_part (a -ℤ b) + pos_part a + neg_part b
unfolding ◌-ℤ◌
-ℤ_parts a b = ground arith

pub eq_of_parts : (a b : ℤ) → pos_part a + neg_part b ≡ pos_part b + neg_part a → a ≡ b
eq_of_parts a b h = ground arith

-- one part of an integer is zero
pub one_part : (a : ℤ) → pos_part a * neg_part a ≡ 0
one_part (pos n) = omega arith
one_part (negsuc n) = omega arith

pub ruleset int_laws = (arith, +ℤ_parts, -ℤ_parts, eq_of_parts)

pub eqb_ℤ→eq : (a b : ℤ) → eqb_ℤ a b ≡ Bool.true → a ≡ b
eqb_ℤ→eq a b h = ground arith

-- On numbers that stay in range the operations do not wrap.
pub add64_pos : (a b : ℕ) → a + b < 2 ^ 63 → add64 (pos a) (pos b) ≡ pos (a + b)
unfolding add64
add64_pos a b h = ground arith

pub sub64_pos : (a b : ℕ) → b ≤ a → a < 2 ^ 63 → sub64 (pos a) (pos b) ≡ pos (a - b)
unfolding sub64
sub64_pos a b h k = ground arith

pub mul64_pos : (a b : ℕ) → a * b < 2 ^ 63 → mul64 (pos a) (pos b) ≡ pos (a * b)
unfolding mul64
mul64_pos a b h = ground arith

pub ltb_ℤ→le : (a b : ℤ) → ltb_ℤ a b ≡ Bool.false → b ≤ℤ a
ltb_ℤ→le a b h = ltb→le (pos_part a + neg_part b) (pos_part b + neg_part a) h

-- The low 64 bits, as a number: what survives the wrap-around.
pub low : ℤ → ℕ
low (pos n) = n % 2 ^ 64
low (negsuc n) = 2 ^ 64 - 1 - n % 2 ^ 64

pub low_zero : low (pos 0) ≡ 0
unfolding low
low_zero = refl

pub low-lt : (a : ℤ) → low a < 2 ^ 64
unfolding low
low-lt (pos n) = omega arith
low-lt (negsuc n) = omega arith

low-wrap : (a : ℤ) → low (wrap a) ≡ low a
unfolding low wrap
low-wrap (pos n) = ground arith
low-wrap (negsuc n) = ground arith

low-add : (a b : ℤ) → low (a +ℤ b) ≡ (low a + low b) % 2 ^ 64
unfolding low ◌+ℤ◌
low-add (pos m) (pos n) = ground arith
low-add (pos m) (negsuc n) = ground arith
low-add (negsuc m) (pos n) = ground arith
low-add (negsuc m) (negsuc n) = ground arith

pub low-add64 : (a b : ℤ) → low (add64 a b) ≡ (low a + low b) % 2 ^ 64
unfolding add64
low-add64 a b = low-wrap (a +ℤ b) ∙ low-add a b

low-sub : (a b : ℤ) → (low (a -ℤ b) + low b) % 2 ^ 64 ≡ low a
unfolding low ◌-ℤ◌
low-sub (pos m) (pos n) = ground arith
low-sub (pos m) (negsuc n) = ground arith
low-sub (negsuc m) (pos n) = ground arith
low-sub (negsuc m) (negsuc n) = ground arith

pub low-sub64 : (a b : ℤ) → (low (sub64 a b) + low b) % 2 ^ 64 ≡ low a
unfolding sub64
low-sub64 a b = ap (λ n. (n + low b) % 2 ^ 64) (low-wrap (a -ℤ b)) ∙ low-sub a b

pub add64-Fits : (a b : ℤ) → Fits (add64 a b)
unfolding add64
add64-Fits a b = wrap-Fits (a +ℤ b)

pub low-inj : (a b : ℤ) → Fits a → Fits b → low a ≡ low b → a ≡ b
unfolding low
low-inj (pos m) (pos n) h k e = ground arith
low-inj (pos m) (negsuc n) h k e = ground arith
low-inj (negsuc m) (pos n) h k e = ground arith
low-inj (negsuc m) (negsuc n) h k e = ground arith
