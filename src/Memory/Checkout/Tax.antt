-- ===== src/Memory/Checkout/Tax.antt =====
-- The tax of a checkout, on floats with the guarantees of IEEE 754.
use kasirinaja.Prelude.{
  ℕ, ◌+◌, ◌-◌, ◌*◌, ◌≤◌, ◌^◌, ℤ, pos, negsuc, ◌≤ℤ◌, ◌≡◌, refl, ap₂, ◌∙◌, none, sub64, sub64_pos,
  add64_pos, false, true, arith, Float64, IsIeee, exact_limit,
}
use kasirinaja.Domain.{Env, Transaction}
use kasirinaja.Store.{ok}
use kasirinaja.Memory.State.{Store}
use kasirinaja.Memory.Checkout.{percent_of, find_by_idem, create_checkout}
use kasirinaja.Memory.Checkout.Sale.{create_checkout-IsSale, paid_fields, create_checkout_amounts}

of_nonneg : (z : ℤ) → pos 0 ≤ℤ z → (n : ℕ) × (z ≡ pos n)
of_nonneg (pos n) h = (n, refl)
of_nonneg (negsuc n) h = absurd (omega arith)

le_pos : (a b : ℤ) (n m : ℕ) → a ≡ pos n → b ≡ pos m → a ≤ℤ b → n ≤ m
le_pos a b n m e f h = ground arith

times_zero : (n : ℕ) → n * 0 ≡ 0 * 100
times_zero n = omega arith

module _ {F : Type 0} ⦃fl : Float64 F⦄ (laws : IsIeee F fl) where
  open fl use {of_int, mul, div, lt, le, round}
  open laws use {
    le_trans, le_of_not-lt, of_int_mono, mul_mono, div_mono, mul-of_int, div-of_int, round_mono,
    round-of_int,
  }

  -- A percentage between 0 and 100 that is a number, of an amount up to 2 ^ 46, lies between zero and
  -- the amount.
  percent_of_bounds :
      (cents : ℕ) (rate : F)
      → cents ≤ 2 ^ 46
      → le rate rate ≡ true
      → lt rate (of_int (pos 0)) ≡ false
      → lt (of_int (pos 100)) rate ≡ false
      → (pos 0 ≤ℤ percent_of (pos cents) rate) × (percent_of (pos cents) rate ≤ℤ pos cents)
  unfolding percent_of
  percent_of_bounds cents rate small num low high =
      let number = λ (a : ℤ). of_int_mono a a (omega arith) in
      let nonneg : le (of_int (pos 0)) rate ≡ true =
        le_of_not-lt rate (of_int (pos 0)) num (number (pos 0)) low in
      let at_most : le rate (of_int (pos 100)) ≡ true =
        le_of_not-lt (of_int (pos 100)) rate (number (pos 100)) num high in
      let c = of_int (pos cents) in
      let hundred = of_int (pos 100) in
      let c_small = of_int_mono (pos cents) (pos exact_limit) (omega arith) in
      let hundred_small = of_int_mono (pos 100) (pos exact_limit) (omega arith) in
      let rate_small = le_trans rate hundred (of_int (pos exact_limit)) at_most hundred_small in
      let c_nonneg = of_int_mono (pos 0) (pos cents) (omega arith) in
      let zero_end : div (mul c (of_int (pos 0))) hundred ≡ of_int (pos 0) =
        rw (mul-of_int cents 0 (omega arith), times_zero cents)
          (div-of_int 0 100 (omega arith) (omega arith)) in
      let full_end : div (mul c hundred) hundred ≡ c =
        rw (mul-of_int cents 100 (omega arith))
          (div-of_int cents 100 (omega arith) (omega arith)) in
      let x = div (mul c rate) hundred in
      let above : le (of_int (pos 0)) x ≡ true = rw zero_end at (
        div_mono 100 _ _ (omega arith) (omega arith)
          (mul_mono c (of_int (pos 0)) rate c_nonneg c_small (number (pos 0)) nonneg rate_small)) in
      let below : le x c ≡ true = rw full_end at (
        div_mono 100 _ _ (omega arith) (omega arith)
          (mul_mono c rate hundred c_nonneg c_small nonneg at_most hundred_small)) in
      let low_end =
        round_mono (of_int (pos 0)) x (number (pos 0)) above (le_trans x c _ below c_small) in
      let high_end = round_mono x c above below c_small in
      (
        rw (round-of_int 0 (omega arith)) at low_end,
        rw (round-of_int cents (omega arith)) at high_end,
      )

  -- A first successful checkout at a tax rate that is a number, with a subtotal of up to 2 ^ 46
  -- cents: neither the discount nor the tax is negative, the discount is at most the subtotal and
  -- the tax at most what is left of it, and the total is what is left and the tax, with no overflow.
  pub create_checkout_total :
      (env : Env) (tx : Transaction F) (s : Store F) {paid : Transaction F} {s' : Store F}
      (subtotal : ℕ)
      → create_checkout env tx s ≡ (ok paid, s')
      → find_by_idem tx.idempotency_key s ≡ none
      → le tx.tax_rate_percent tx.tax_rate_percent ≡ true
      → paid.subtotal_cents ≡ pos subtotal
      → subtotal ≤ 2 ^ 46
      → (discount : ℕ) × (tax : ℕ) × (paid.discount_cents ≡ pos discount)
        × (discount ≤ subtotal)
        × (paid.tax_cents ≡ pos tax)
        × (tax ≤ subtotal - discount)
        × (paid.total_cents ≡ pos (subtotal - discount + tax))
  create_checkout_total env tx s {paid} subtotal h new num e small =
      let sale = create_checkout-IsSale env tx s h new in
      let rate = (paid_fields env tx paid sale.items sale.subtotal sale.pays).3 in
      let (_, _, _, _, _, discount_nonneg, discount_le, tax_is, total_is, _) =
        create_checkout_amounts env tx s h new in
      let (d, ed) = of_nonneg paid.discount_cents discount_nonneg in
      let d_le : d ≤ subtotal =
        omega (arith, le_pos paid.discount_cents paid.subtotal_cents d subtotal ed e discount_le) in
      let base : sub64 paid.subtotal_cents paid.discount_cents ≡ pos (subtotal - d) =
        rw (e, ed) (sub64_pos subtotal d d_le (omega arith)) in
      let (low, high) =
        percent_of_bounds (subtotal - d) tx.tax_rate_percent (omega arith) num sale.rate_nonneg
          sale.rate_le in
      let (t, et) = of_nonneg (percent_of (pos (subtotal - d)) tx.tax_rate_percent) low in
      let tax : paid.tax_cents ≡ pos t = tax_is ∙ ap₂ percent_of base rate ∙ et in
      let t_le : t ≤ subtotal - d = omega (
        arith,
        le_pos (percent_of (pos (subtotal - d)) tx.tax_rate_percent) (pos (subtotal - d)) t
            (subtotal - d) et refl high,
      ) in
      (
        d,
        t,
        ed,
        d_le,
        tax,
        t_le,
        rw (total_is, base, tax) (add64_pos (subtotal - d) t (omega arith)),
      )
