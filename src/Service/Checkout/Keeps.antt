-- ===== src/Service/Checkout/Keeps.antt =====
-- A checkout, successful or not, keeps the shifts and every sale that is on record.
use kasirinaja.Prelude.{
  pos, String, List, ◌≡◌, refl, inl, inr, arith, Float64, Option-cases, Bool-cases, sym, subst, map,
  sub64, add64,
}
use kasirinaja.Domain.{Env, CartItem, CheckoutRequest, CheckoutResponse}
use kasirinaja.Store.{Result, Result-cases, fold_result}
use kasirinaja.Memory.State.{Store}
use kasirinaja.Memory.Checkout.{is_empty, find_by_idem, create_checkout, percent_of}
use kasirinaja.Memory.Catalog.{active_products, get_products_by_skus}
use kasirinaja.Service.Context.{Context, Formats, later, log_audit}
use kasirinaja.Service.Items.{normalize_items}
use kasirinaja.Memory.Sales.{find_transaction_by_idempotency}
use kasirinaja.Service.Promos.Best.{calculate_promo_discount-ok}
use kasirinaja.Service.Checkout.{
  completed_request, active_shift, request_error, new_checkout, checkout, requested_sale,
  log_recommendation, settle, add_price, capped_discount, checkout_detail,
}
use kasirinaja.Service.Checkout.Steps.{active_shift-same, log_recommendation-ok, log_audit-ok}
use kasirinaja.Service.Checkout.Records.{
  IsKept, IsKept-refl, IsKept-trans, IsKept-of_same, create_checkout-IsKept,
}

module _ {F : Type 0} ⦃fl : Float64 F⦄ where
  new_checkout-IsKept :
      (ctx : Context) (formats : Formats) (env : Env) (request : CheckoutRequest F)
      (shift_id : String) (items : List CartItem) (s : Store F) {r : Result CheckoutResponse}
      {s' : Store F}
      → new_checkout ctx formats env request shift_id items s ≡ (r, s')
      → IsKept s s'
  unfolding new_checkout get_products_by_skus
  new_checkout-IsKept ctx formats env request shift_id items s {r} {s'} h =
      let unchanged = λ (same : s' ≡ s). subst (IsKept s) (sym same) (IsKept-refl s) in
      let products = active_products s.products (map (λ item. item.sku) items) in
      elim (Result-cases (fold_result (add_price products) (pos 0) items)) [
        | inr (e, q) ↦ unchanged (ground arith)
        | inl (subtotal, q) ↦
            let (promo, eq) = calculate_promo_discount-ok subtotal s in
            let discount = capped_discount subtotal request.discount_cents promo in
            let base = sub64 subtotal discount in
            let total = add64 base (percent_of base request.tax_rate_percent) in
            elim (Result-cases (settle formats request total)) [
              | inr (e, q') ↦ unchanged (ground arith)
              | inl (payment, q') ↦
                  let tx = requested_sale (later 1 env) request shift_id items discount payment in
                  let (result, after) = create_checkout (later 2 env) tx s in
                  let kept = create_checkout-IsKept (later 2 env) tx s result refl in
                  elim (Result-cases result) [
                    | inr (e, q'') ↦
                        let ends : s' ≡ after = ground arith in subst (IsKept s) (sym ends) kept
                    | inl (paid, q'') ↦
                        let (shown, books) =
                          log_recommendation-ok (later 4 env) request paid.id after in
                        let next = (log_recommendation (later 4 env) request paid.id after).1 in
                        let (noted, books') =
                          log_audit-ok ctx (later 5 env) request.store_id "checkout" "transaction"
                            paid.id (checkout_detail request paid) next in
                        let last_state =
                          (log_audit ctx (later 5 env) request.store_id "checkout" "transaction"
                            paid.id (checkout_detail request paid) next).1 in
                        let ends : s' ≡ last_state = ground arith in
                        let logged = IsKept-trans (IsKept-of_same books) (IsKept-of_same books') in
                        subst (IsKept s) (sym ends) (IsKept-trans kept logged)
                  ]
            ]
      ]

  -- A checkout, successful or not, keeps the shifts and every sale on record under its key.
  pub checkout-IsKept :
      (ctx : Context) (formats : Formats) (env : Env) (asked : CheckoutRequest F) (s : Store F)
      {r : Result CheckoutResponse} {s' : Store F}
      → checkout ctx formats env asked s ≡ (r, s')
      → IsKept s s'
  unfolding checkout find_transaction_by_idempotency
  checkout-IsKept ctx formats env asked s {r} {s'} h =
      let request = completed_request ctx env asked in
      let items = normalize_items request.cart_items in
      let unchanged = λ (same : s' ≡ s). subst (IsKept s) (sym same) (IsKept-refl s) in
      let (result, after) = active_shift ctx request.store_id request.terminal_id s in
      let same : after ≡ s =
        active_shift-same ctx request.store_id request.terminal_id s after result refl in
      elim (Option-cases (request_error ctx request)) [
        | inr (e, q) ↦ unchanged (ground arith)
        | inl fine ↦ elim (Result-cases result) [
          | inr (e, q) ↦ unchanged (ground arith)
          | inl (shift, q) ↦ elim (Bool-cases (is_empty items)) [
            | inl empty ↦ unchanged (ground arith)
            | inr filled ↦ elim (Option-cases (find_by_idem request.idempotency_key s)) [
              | inr (known, q') ↦ unchanged (ground arith)
              | inl new ↦
                  let runs : new_checkout ctx formats env request shift.id items s ≡ (r, s') =
                    ground arith in
                  new_checkout-IsKept ctx formats env request shift.id items s runs
            ]
          ]
        ]
      ]
