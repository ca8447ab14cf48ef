-- ===== src/Service/Promos/Best.antt =====
-- The discount of the promos is the best one, within the subtotal.
use kasirinaja.Prelude.{
  ℕ, ℤ, pos, negsuc, ◌≤ℤ◌, ◌≤◌, ◌≡◌, refl, true, ◌⊎◌, inl, inr, List, [], ◌∷◌, All, arith, Float64,
  Bool-cases, ltb_ℤ, values, sort_by, subst,
}
use kasirinaja.Domain.{PromoRule}
use kasirinaja.Store.{ok}
use kasirinaja.Memory.State.{Store}
use kasirinaja.Memory.Catalog.{list_promos, promo_before}
use kasirinaja.Service.Promos.{
  is_skipped, rule_discount, better, best_discount, calculate_promo_discount,
}

nonneg_cases : (z : ℤ) → pos 0 ≤ℤ z → (n : ℕ) × (z ≡ pos n)
nonneg_cases (pos n) h = (n, refl)
nonneg_cases (negsuc n) h = absurd (omega arith)

module _ {F : Type 0} ⦃fl : Float64 F⦄ where
  -- The rule does not apply, or it gives no more than `best`.
  abbrev pub IsBeaten : ℤ → ℤ → PromoRule F → Type 0
  IsBeaten subtotal best rule =
      (is_skipped subtotal rule ≡ true) ⊎ (rule_discount subtotal rule ≤ℤ best)

  better-cases :
      (subtotal best : ℤ) (rule : PromoRule F)
      → (best ≤ℤ better subtotal best rule) × IsBeaten subtotal (better subtotal best rule) rule
  unfolding better
  better-cases subtotal best rule = ground arith

  best_discount-grows :
      (subtotal best : ℤ) (rules : List (PromoRule F)) → best ≤ℤ best_discount subtotal best rules
  unfolding best_discount
  best_discount-grows subtotal best [] = omega arith
  best_discount-grows subtotal best (rule ∷ rules) = omega (
    arith,
    (better-cases subtotal best rule).0,
    best_discount-grows subtotal (better subtotal best rule) rules,
  )

  IsBeaten-mono :
      (subtotal best best' : ℤ) (rule : PromoRule F)
      → best ≤ℤ best'
      → IsBeaten subtotal best rule
      → IsBeaten subtotal best' rule
  IsBeaten-mono subtotal best best' rule h (inl skip) = inl skip
  IsBeaten-mono subtotal best best' rule h (inr less) = inr (omega arith)

  best_discount-All :
      (subtotal best : ℤ) (rules : List (PromoRule F))
      → All (IsBeaten subtotal (best_discount subtotal best rules)) rules
  unfolding best_discount
  best_discount-All subtotal best [] = tt
  best_discount-All subtotal best (rule ∷ rules) =
      let kept = better subtotal best rule in
      (
        IsBeaten-mono subtotal kept (best_discount subtotal kept rules) rule
            (best_discount-grows subtotal kept rules) (better-cases subtotal best rule).1,
        best_discount-All subtotal kept rules,
      )

  pub calculate_promo_discount-ok :
      (subtotal : ℤ) (s : Store F)
      → (discount : ℤ) × (calculate_promo_discount subtotal s ≡ (ok discount, s))
  unfolding list_promos calculate_promo_discount
  calculate_promo_discount-ok subtotal s = elim (Bool-cases (ltb_ℤ subtotal (pos 1))) [
    | inl small ↦ (pos 0, ground arith)
    | inr large ↦
        let best = best_discount subtotal (pos 0) (sort_by promo_before (values s.promos_by_id)) in
        elim (Bool-cases (ltb_ℤ subtotal best)) [
          | inl over ↦ (subtotal, ground arith)
          | inr within ↦ (best, ground arith)
        ]
  ]

  -- The discount of the promos for a subtotal that is not negative is between zero and the subtotal,
  -- nothing is changed, and no listed promo that applies gives more, unless it is the whole
  -- subtotal.
  pub calculate_promo_discount_lem :
      (subtotal : ℕ) (s : Store F)
      → (promos : List (PromoRule F)) × (discount : ℕ) × (list_promos s ≡ (ok promos, s))
        × (calculate_promo_discount (pos subtotal) s ≡ (ok (pos discount), s))
        × (discount ≤ subtotal)
        × (All (IsBeaten (pos subtotal) (pos discount)) promos ⊎ (discount ≡ subtotal))
  unfolding list_promos calculate_promo_discount
  calculate_promo_discount_lem subtotal s =
      let promos = (sort_by promo_before (values s.promos_by_id)) in
      let best = best_discount (pos subtotal) (pos 0) promos in
      let (d, e) = nonneg_cases best (best_discount-grows (pos subtotal) (pos 0) promos) in
      let beaten = best_discount-All (pos subtotal) (pos 0) promos in
      elim (Bool-cases (ltb_ℤ (pos subtotal) (pos 1))) [
        | inl small ↦ (promos, 0, refl, ground arith, omega arith, inr (ground arith))
        | inr large ↦ elim (Bool-cases (ltb_ℤ (pos subtotal) best)) [
          | inl over ↦ (promos, subtotal, refl, ground arith, omega arith, inr refl)
          | inr within ↦ (
            promos,
            d,
            refl,
            ground arith,
            ground arith,
            inl (subst (λ b. All (IsBeaten (pos subtotal) b) promos) e beaten),
          )
        ]
      ]
