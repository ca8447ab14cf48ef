-- ===== src/Service/Checkout/Steps.antt =====
-- What a successful `Checkout` went through.
use kasirinaja.Prelude.{
  ℤ, pos, false, String, none, some, List, [], ◌∷◌, ◌≡◌, refl, inl, inr, arith, Float64, foldl, map,
  ◌∙◌, ap, sym, subst, sub64, add64,
}
use kasirinaja.Domain.{
  Env, CartItem, CheckoutRequest, CheckoutResponse, Transaction, TransactionLine, Shift, Time,
}
use kasirinaja.Store.{Result, ok, Result-cases, fold_result}
use kasirinaja.Memory.State.{Store}
use kasirinaja.Memory.Checkout.{
  find_by_idem, create_checkout, sell_line, ensure_lots, save_transaction, percent_of,
}
use kasirinaja.Memory.Checkout.Inversion.{sold}
use kasirinaja.Memory.Checkout.Sale.{create_checkout-IsSale, paid_fields}
use kasirinaja.Memory.Checkout.Retry.{find-save_transaction}
use kasirinaja.Memory.Lots.{now_date_utc}
use kasirinaja.Memory.Shifts.{get_active_shift}
use kasirinaja.Memory.Catalog.{
  active_products, get_products_by_skus, create_recommendation_event, create_audit_log,
}
use kasirinaja.Service.Context.{Context, Formats, later, log_audit}
use kasirinaja.Service.Promos.Best.{calculate_promo_discount-ok}
use kasirinaja.Service.Checkout.{
  active_shift, new_checkout, to_checkout_response, requested_sale, log_recommendation, settle,
  add_price, capped_discount, checkout_detail,
}

module _ {F : Type 0} where
  -- Two states that differ in their logs at most.
  pub record IsSameBooks (s s' : Store F) : Type 0 where
    pub inventory : s'.inventory ≡ s.inventory
    pub heap : s'.heap ≡ s.heap
    pub by_idem : s'.transactions_by_idem ≡ s.transactions_by_idem
    pub shifts : s'.shifts_by_id ≡ s.shifts_by_id
    pub active : s'.active_shift_by_key ≡ s.active_shift_by_key

  IsSameBooks-trans : {s t u : Store F} → IsSameBooks s t → IsSameBooks t u → IsSameBooks s u
  IsSameBooks-trans a b = record {
    inventory = b.inventory ∙ a.inventory;
    heap = b.heap ∙ a.heap;
    by_idem = b.by_idem ∙ a.by_idem;
    shifts = b.shifts ∙ a.shifts;
    active = b.active ∙ a.active;
  }

  pub log_recommendation-ok :
      (env : Env) (request : CheckoutRequest F) (id : String) (s : Store F)
      → ((log_recommendation env request id s).0 ≡ ok tt)
        × IsSameBooks s (log_recommendation env request id s).1
  unfolding log_recommendation create_recommendation_event
  log_recommendation-ok env request id s = ground arith

  pub log_audit-ok :
      (ctx : Context) (env : Env) (store action type id detail : String) (s : Store F)
      → ((log_audit ctx env store action type id detail s).0 ≡ ok tt)
        × IsSameBooks s (log_audit ctx env store action type id detail s).1
  unfolding log_audit create_audit_log
  log_audit-ok ctx env store action type id detail s = ground arith

  pub active_shift-same :
      (ctx : Context) (store terminal : String) (s s' : Store F) (r : Result Shift)
      → (active_shift ctx store terminal s) ≡ (r, s')
      → s' ≡ s
  unfolding active_shift get_active_shift
  active_shift-same ctx store terminal s s' r h = ground arith

  shifts-sell_line :
      (today : Time) (store : String) (item : TransactionLine F) (s : Store F)
      → ((sell_line today store s item).shifts_by_id ≡ s.shifts_by_id)
        × ((sell_line today store s item).active_shift_by_key ≡ s.active_shift_by_key)
  unfolding sell_line
  shifts-sell_line today store item s = ground arith

  shifts-sell :
      (today : Time) (store : String) (items : List (TransactionLine F)) (s : Store F)
      → ((foldl (sell_line today store) s items).shifts_by_id ≡ s.shifts_by_id)
        × ((foldl (sell_line today store) s items).active_shift_by_key ≡ s.active_shift_by_key)
  shifts-sell today store [] s = (refl, refl)
  shifts-sell today store (item ∷ items) s =
      let (a, b) = shifts-sell today store items (sell_line today store s item) in
      let (c, d) = shifts-sell_line today store item s in (a ∙ c, b ∙ d)

  shifts-save :
      (tx : Transaction F) (store : String) (s : Store F)
      → ((save_transaction tx s).shifts_by_id ≡ s.shifts_by_id)
        × ((save_transaction tx s).active_shift_by_key ≡ s.active_shift_by_key)
        × ((ensure_lots store s).shifts_by_id ≡ s.shifts_by_id)
        × ((ensure_lots store s).active_shift_by_key ≡ s.active_shift_by_key)
  unfolding save_transaction ensure_lots
  shifts-save tx store s = ground arith

module _ {F : Type 0} ⦃fl : Float64 F⦄ where
  -- A first sale leaves the shifts alone, and its key leads to it.
  pub create_checkout-shifts :
      (env : Env) (tx : Transaction F) (s : Store F) {paid : Transaction F} {s' : Store F}
      → create_checkout env tx s ≡ (ok paid, s')
      → find_by_idem tx.idempotency_key s ≡ none
      → (s'.shifts_by_id ≡ s.shifts_by_id)
        × (s'.active_shift_by_key ≡ s.active_shift_by_key)
        × (find_by_idem tx.idempotency_key s' ≡ some paid)
  create_checkout-shifts env tx s {paid} {s'} h new =
      let sale = create_checkout-IsSale env tx s h new in
      let today = now_date_utc (env.now 0) in
      let start = ensure_lots tx.store_id s in
      let (a, b) = shifts-sell today tx.store_id paid.items start in
      let (c, d, _, _) = shifts-save paid tx.store_id (sold env tx s paid.items) in
      let (_, _, e, f) = shifts-save paid tx.store_id s in
      let key = (paid_fields env tx paid sale.items sale.subtotal sale.pays).2 in
      (
        ap (λ s. s.shifts_by_id) sale.after ∙ c ∙ a ∙ e,
        ap (λ s. s.active_shift_by_key) sale.after ∙ d ∙ b ∙ f,
        rw (← key, sale.after) (find-save_transaction paid (sold env tx s paid.items)).1,
      )

  -- The sale behind a first successful `Checkout`.
  pub record IsNewSale (formats : Formats) (env : Env) (request : CheckoutRequest F)
      (shift_id : String) (items : List CartItem) (s : Store F) (response : CheckoutResponse)
      (s' : Store F) : Type 0 where
    pub discount : ℤ
    pub payment : ℤ × String
    pub paid : Transaction F
    pub after : Store F
    pub sells :
        create_checkout
          (later 2 env)
          (requested_sale (later 1 env) request shift_id items discount payment)
          s
        ≡ (ok paid, after)
    pub answers : response ≡ to_checkout_response formats paid false
    pub books : IsSameBooks after s'

  pub new_checkout-IsNewSale :
      (ctx : Context) (formats : Formats) (env : Env) (request : CheckoutRequest F)
      (shift_id : String) (items : List CartItem) (s : Store F) {response : CheckoutResponse}
      {s' : Store F}
      → new_checkout ctx formats env request shift_id items s ≡ (ok response, s')
      → IsNewSale formats env request shift_id items s response s'
  unfolding new_checkout get_products_by_skus
  new_checkout-IsNewSale ctx formats env request shift_id items s {response} {s'} h =
      let products = active_products s.products (map (λ item. item.sku) items) in
      elim (Result-cases (fold_result (add_price products) (pos 0) items)) [
        | inr (e, q) ↦ ground arith
        | inl (subtotal, q) ↦
            let (promo, eq) = calculate_promo_discount-ok subtotal s in
            let discount = capped_discount subtotal request.discount_cents promo in
            let base = sub64 subtotal discount in
            let total = add64 base (percent_of base request.tax_rate_percent) in
            elim (Result-cases (settle formats request total)) [
              | inr (e, q') ↦ ground arith
              | inl (payment, q') ↦
                  let tx = requested_sale (later 1 env) request shift_id items discount payment in
                  let (result, after) = create_checkout (later 2 env) tx s in
                  elim (Result-cases result) [
                    | inr (e, q'') ↦ ground arith
                    | inl (paid, q'') ↦
                        let (shown, books) =
                          log_recommendation-ok (later 4 env) request paid.id after in
                        let next = (log_recommendation (later 4 env) request paid.id after).1 in
                        let (noted, books') =
                          log_audit-ok ctx (later 5 env) request.store_id "checkout" "transaction"
                            paid.id (checkout_detail request paid) next in
                        let last_state =
                          (log_audit ctx (later 5 env) request.store_id "checkout" "transaction"
                            paid.id (checkout_detail request paid) next).1 in
                        let ends : s' ≡ last_state = ground arith in
                        record {
                          discount = discount;
                          payment = payment;
                          paid = paid;
                          after = after;
                          sells = ap (λ r. (r, after)) q'';
                          answers = ground arith;
                          books =
                              subst (IsSameBooks after) (sym ends) (IsSameBooks-trans books books');
                        }
                  ]
            ]
      ]
