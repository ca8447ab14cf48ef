-- ===== src/Memory/Receiving/Cost.antt =====
-- The weighted cost of a delivery lies between the old cost and the new one.
use kasirinaja.Prelude.{
  ℕ, ◌+◌, ◌*◌, ◌≤◌, ◌<◌, ◌^◌, pos, ◌≤ℤ◌, ◌≡◌, true, arith, Float64, IsIeee, exact_limit, add64_pos,
  mul64_pos, ltb_ℤ, if◌then◌else◌,
}
use Prim.Native.Nat.{min, max}
use kasirinaja.Memory.Receiving.{weighted_cost_cents}

le_of_product : (a q : ℕ) → 0 < q → a * q ≤ exact_limit → a ≤ exact_limit
le_of_product a q p h = let grown : a ≤ a * q = grind arith in omega arith

module _ {F : Type 0} (fl : Float64 F) (laws : IsIeee F fl) where
  open fl use {of_int, div, le, round}
  open laws use {le_trans, of_int_mono, div_mono, div-of_int, round_mono, round-of_int}

  average_bounds :
      (low high total qty : ℕ)
      → 0 < qty
      → qty ≤ exact_limit
      → low * qty ≤ total
      → total ≤ high * qty
      → high * qty ≤ exact_limit
      → (pos low ≤ℤ round (div (of_int (pos total)) (of_int (pos qty))))
        × (round (div (of_int (pos total)) (of_int (pos qty))) ≤ℤ pos high)
  average_bounds low high total qty p small l h fits =
      let q = of_int (pos qty) in
      let x = div (of_int (pos total)) q in
      let low_end : div (of_int (pos (low * qty))) q ≡ of_int (pos low) =
        div-of_int low qty p (omega arith) in
      let high_end : div (of_int (pos (high * qty))) q ≡ of_int (pos high) =
        div-of_int high qty p fits in
      let above : le (of_int (pos low)) x ≡ true = rw low_end at (
        div_mono qty (of_int (pos (low * qty))) (of_int (pos total)) p small
          (of_int_mono (pos (low * qty)) (pos total) (omega arith))) in
      let below : le x (of_int (pos high)) ≡ true = rw high_end at (
        div_mono qty (of_int (pos total)) (of_int (pos (high * qty))) p small
          (of_int_mono (pos total) (pos (high * qty)) (omega arith))) in
      let high_small : high ≤ exact_limit = le_of_product high qty p fits in
      let high_le = of_int_mono (pos high) (pos exact_limit) (omega arith) in
      let low_nonneg = of_int_mono (pos 0) (pos low) (omega arith) in
      let x_nonneg = le_trans (of_int (pos 0)) (of_int (pos low)) x low_nonneg above in
      let x_small = le_trans x (of_int (pos high)) (of_int (pos exact_limit)) below high_le in
      let low_small : low ≤ exact_limit = le_of_product low qty p (omega arith) in
      (
        rw (round-of_int low low_small) at
            (round_mono (of_int (pos low)) x low_nonneg above x_small),
        rw (round-of_int high high_small) at
            (round_mono x (of_int (pos high)) x_nonneg below high_le),
      )

  -- With positive amounts in range the code takes the rounded average, and at least one cent.
  weighted_plain :
      (old_cost old_qty cost qty : ℕ)
      → 0 < old_cost
      → 0 < old_qty
      → 0 < cost
      → 0 < qty
      → old_qty + qty < 2 ^ 63
      → old_cost * old_qty + cost * qty < 2 ^ 63
      → let average =
          round
            (div (of_int (pos (old_cost * old_qty + cost * qty))) (of_int (pos (old_qty + qty)))) in
        weighted_cost_cents fl (pos old_cost) (pos old_qty) (pos cost) (pos qty)
        ≡ (if ltb_ℤ average (pos 1) then pos 1 else average)
  unfolding weighted_cost_cents
  weighted_plain old_cost old_qty cost qty a b c d e f =
      let units = add64_pos old_qty qty e in
      let old_value = mul64_pos old_cost old_qty (omega arith) in
      let value = mul64_pos cost qty (omega arith) in
      let sum = add64_pos (old_cost * old_qty) (cost * qty) f in
      rw (units, old_value, value, sum) (ground arith)

  -- A delivery of `qty` units at `cost` cents to `old_qty` units at `old_cost` cents leaves a cost
  -- between the two, if all four are positive and the value of the stock at the higher cost is at
  -- most 2 ^ 53 cents.
  pub weighted_cost_bounds :
      (old_cost old_qty cost qty : ℕ)
      → 0 < old_cost
      → 0 < old_qty
      → 0 < cost
      → 0 < qty
      → max old_cost cost * (old_qty + qty) ≤ exact_limit
      → let weighted = weighted_cost_cents fl (pos old_cost) (pos old_qty) (pos cost) (pos qty) in
        (pos (min old_cost cost) ≤ℤ weighted) × (weighted ≤ℤ pos (max old_cost cost))
  weighted_cost_bounds old_cost old_qty cost qty a b c d fits =
      let high = max old_cost cost in
      let low = min old_cost cost in
      let total = old_cost * old_qty + cost * qty in
      let h1 : old_cost * old_qty ≤ high * old_qty = grind arith in
      let h2 : cost * qty ≤ high * qty = grind arith in
      let l1 : low * old_qty ≤ old_cost * old_qty = grind arith in
      let l2 : low * qty ≤ cost * qty = grind arith in
      let whole : high * (old_qty + qty) ≡ high * old_qty + high * qty = omega arith in
      let qty_small : old_qty + qty ≤ exact_limit =
        le_of_product (old_qty + qty) high (omega arith) (omega arith) in
      let (low_end, high_end) =
        average_bounds low high total (old_qty + qty) (omega arith) qty_small (omega arith)
          (omega arith) fits in
      let plain = weighted_plain old_cost old_qty cost qty a b c d (omega arith) (omega arith) in
      ground (arith, plain)
