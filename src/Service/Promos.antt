-- ===== src/Service/Promos.antt =====
-- `calculatePromoDiscount`: the best discount of the active promos, up to the subtotal.
pub mod Best
use kasirinaja.Prelude.{
  ℤ, pos, ◌||◌, not, String, List, [], ◌∷◌, str_eq, ltb_ℤ, if◌then◌else◌, Float64, Bool,
}
use kasirinaja.Domain.{PromoRule}
use kasirinaja.Store.{Action, pure, ◌>>=◌}
use kasirinaja.Memory.State.{Store}
use kasirinaja.Memory.Catalog.{list_promos}
use kasirinaja.Memory.Checkout.{percent_of}

module _ {F : Type 0} where
  unfoldable pub is_skipped : ℤ → PromoRule F → Bool
  is_skipped subtotal rule = not rule.active || ltb_ℤ subtotal rule.min_subtotal_cents

module _ {F : Type 0} ⦃fl : Float64 F⦄ where
  unfoldable pub rule_discount : ℤ → PromoRule F → ℤ
  rule_discount subtotal rule =
      if str_eq rule.type "cart_percent"
      then percent_of subtotal rule.discount_percent
      else (if str_eq rule.type "flat_cart" then rule.flat_discount_cents else pos 0)

  -- One round of the loop over the promos.
  unfoldable pub better : ℤ → ℤ → PromoRule F → ℤ
  unfolding is_skipped
  better subtotal best rule =
      let discount = rule_discount subtotal rule in
      if is_skipped subtotal rule then best else (if ltb_ℤ best discount then discount else best)

  unfoldable pub best_discount : ℤ → ℤ → List (PromoRule F) → ℤ
  best_discount subtotal best [] = best
  best_discount subtotal best (rule ∷ rules) =
      best_discount subtotal (better subtotal best rule) rules

  unfoldable pub calculate_promo_discount : ℤ → Action (Store F) ℤ
  calculate_promo_discount subtotal = if ltb_ℤ subtotal (pos 1) then pure (pos 0) else (do
    promos ← list_promos
    let best = best_discount subtotal (pos 0) promos
    pure (if ltb_ℤ subtotal best then subtotal else best))
