-- ===== src/Service/Checkout/Again.antt =====
-- A checkout that is sent again answers with the sale it made.
use kasirinaja.Prelude.{
  ℤ, Bool, true, false, String, none, some, List, ◌≡◌, ◌≢◌, refl, inl, inr, arith, Float64,
  Option-cases, eq_iff, ap, sym, subst, ◌∙◌,
}
use kasirinaja.Domain.{Env, CartItem, CheckoutRequest, CheckoutResponse, Transaction, Shift}
use kasirinaja.Store.{ok, err, Result-cases}
use kasirinaja.Memory.State.{Store}
use kasirinaja.Memory.Checkout.{is_empty, find_by_idem}
use kasirinaja.Memory.Sales.{find_transaction_by_idempotency}
use kasirinaja.Memory.Shifts.{get_active_shift}
use kasirinaja.Service.Context.{Context, Formats, later}
use kasirinaja.Service.Items.{normalize_items}
use kasirinaja.Service.Checkout.{
  completed_request, active_shift, request_error, new_checkout, checkout, to_checkout_response,
  requested_sale,
}
use kasirinaja.Service.Checkout.Records.{IsKept, IsKept-refl}
use kasirinaja.Service.Checkout.Steps.{
  IsSameBooks, new_checkout-IsNewSale, active_shift-same, create_checkout-shifts,
}

abbrev pub marked : CheckoutResponse → CheckoutResponse
marked response = record response { duplicate = true }

module _ {F : Type 0} ⦃fl : Float64 F⦄ where
  -- What a request passes before the store looks for its key.
  pub record IsAdmitted (ctx : Context) (request : CheckoutRequest F) (s : Store F) : Type 0 where
    pub accepted : request_error ctx request ≡ none
    pub shift : Shift
    pub open_shift : active_shift ctx request.store_id request.terminal_id s ≡ (ok shift, s)
    pub has_items : is_empty (normalize_items request.cart_items) ≡ false

  checkout-known :
      (ctx : Context) (formats : Formats) (env : Env) (asked : CheckoutRequest F) (s : Store F)
      {existing : Transaction F}
      → let request = completed_request ctx env asked in
        IsAdmitted ctx request s
        → find_by_idem request.idempotency_key s ≡ some existing
        → checkout ctx formats env asked s ≡ (ok (to_checkout_response formats existing true), s)
  unfolding checkout find_transaction_by_idempotency
  checkout-known ctx formats env asked s h known =
      let accepted = h.accepted in
      let open_shift = h.open_shift in let has_items = h.has_items in ground arith

  pub checkout-unknown :
      (ctx : Context) (formats : Formats) (env : Env) (asked : CheckoutRequest F) (s : Store F)
      → let request = completed_request ctx env asked in
        (h : IsAdmitted ctx request s)
        → find_by_idem request.idempotency_key s ≡ none
        → checkout ctx formats env asked s
          ≡ new_checkout ctx formats env request h.shift.id (normalize_items request.cart_items) s
  unfolding checkout find_transaction_by_idempotency
  checkout-unknown ctx formats env asked s h known =
      let accepted = h.accepted in
      let open_shift = h.open_shift in let has_items = h.has_items in ground arith

  pub checkout-IsAdmitted :
      (ctx : Context) (formats : Formats) (env : Env) (asked : CheckoutRequest F) (s : Store F)
      {response : CheckoutResponse} {s' : Store F}
      → checkout ctx formats env asked s ≡ (ok response, s')
      → IsAdmitted ctx (completed_request ctx env asked) s
  unfolding checkout
  checkout-IsAdmitted ctx formats env asked s h =
      let request = completed_request ctx env asked in
      let (result, after) = active_shift ctx request.store_id request.terminal_id s in
      let same : after ≡ s =
        active_shift-same ctx request.store_id request.terminal_id s after result refl in
      elim (Option-cases (request_error ctx request)) [
        | inr (e, q) ↦ ground arith
        | inl fine ↦ elim (Result-cases result) [
          | inr (e, q) ↦ ground arith
          | inl (shift, q) ↦ record {
            accepted = fine;
            shift = shift;
            open_shift = ap (λ r. (r, after)) q ∙ ap (λ s. (ok shift, s)) same;
            has_items = ground arith;
          }
        ]
      ]

  active_shift-moves :
      (ctx : Context) (store terminal : String) (s s' : Store F) {shift : Shift}
      → active_shift ctx store terminal s ≡ (ok shift, s)
      → s'.shifts_by_id ≡ s.shifts_by_id
      → s'.active_shift_by_key ≡ s.active_shift_by_key
      → active_shift ctx store terminal s' ≡ (ok shift, s')
  unfolding active_shift get_active_shift
  active_shift-moves ctx store terminal s s' h a b = ground arith

  completed_same :
      (ctx : Context) (env env' : Env) (asked : CheckoutRequest F)
      → asked.idempotency_key ≢ ""
      → completed_request ctx env' asked ≡ completed_request ctx env asked
  unfolding completed_request
  completed_same ctx env env' asked given = ground (arith, eq_iff asked.idempotency_key "")

  find_by_idem-same :
      (key : String) (s s' : Store F) → IsSameBooks s s' → find_by_idem key s' ≡ find_by_idem key s
  unfolding find_by_idem
  find_by_idem-same key s s' h = rw (h.heap, h.by_idem)

  answer_again :
      (formats : Formats) (tx : Transaction F) (duplicate : Bool)
      → record (to_checkout_response formats tx duplicate) { duplicate = true }
        ≡ to_checkout_response formats tx true
  unfolding to_checkout_response
  answer_again formats tx duplicate = refl

  pub requested_sale-key :
      (env : Env) (request : CheckoutRequest F) (id : String) (items : List CartItem) (discount : ℤ)
      (payment : ℤ × String)
      → ((requested_sale env request id items discount payment).idempotency_key
          ≡ request.idempotency_key)
  unfolding requested_sale
  requested_sale-key env request id items discount payment = refl

  -- After a successful checkout its key leads to the sale that it answered with.
  checkout-answers :
      (ctx : Context) (formats : Formats) (env : Env) (asked : CheckoutRequest F) (s : Store F)
      {response : CheckoutResponse} {s' : Store F}
      → let request = completed_request ctx env asked in
        checkout ctx formats env asked s ≡ (ok response, s')
        → (tx : Transaction F) × (find_by_idem request.idempotency_key s' ≡ some tx)
          × (marked response ≡ to_checkout_response formats tx true)
          × (s'.shifts_by_id ≡ s.shifts_by_id)
          × (s'.active_shift_by_key ≡ s.active_shift_by_key)
  checkout-answers ctx formats env asked s {response} {s'} h =
      let request = completed_request ctx env asked in
      let first = checkout-IsAdmitted ctx formats env asked s h in
      let key = request.idempotency_key in
      elim (Option-cases (find_by_idem key s)) [
        | inr (tx, known) ↦
            let pair = sym (checkout-known ctx formats env asked s first known) ∙ h in
            let same = ap (λ r. r.1) pair in
            let response_is =
              ap (λ r. elim r.0 [ ok a ↦ a | err e ↦ to_checkout_response formats tx true ]) pair in
            (
              tx,
              ap (find_by_idem key) (sym same) ∙ known,
              ap marked (sym response_is) ∙ answer_again formats tx true,
              ap (λ t. t.shifts_by_id) (sym same),
              ap (λ t. t.active_shift_by_key) (sym same),
            )
        | inl new ↦
            let items = normalize_items request.cart_items in
            let runs = sym (checkout-unknown ctx formats env asked s first new) ∙ h in
            let sale = new_checkout-IsNewSale ctx formats env request first.shift.id items s runs in
            let own =
              requested_sale-key (later 1 env) request first.shift.id items sale.discount
                sale.payment in
            let (shifts, active, found) =
              create_checkout-shifts (later 2 env) _ s sale.sells
                (ap (λ k. find_by_idem k s) own ∙ new) in
            (
              sale.paid,
              find_by_idem-same key sale.after s' sale.books
                  ∙ ap (λ k. find_by_idem k sale.after) (sym own)
                  ∙ found,
              ap marked sale.answers ∙ answer_again formats sale.paid false,
              sale.books.shifts ∙ shifts,
              sale.books.active ∙ active,
            )
      ]

  -- The same in any later state that keeps the shifts and the sales on record.
  pub checkout_later :
      (ctx : Context) (formats : Formats) (env env' : Env) (asked : CheckoutRequest F)
      (s u : Store F) {response : CheckoutResponse} {s' : Store F}
      → asked.idempotency_key ≢ ""
      → checkout ctx formats env asked s ≡ (ok response, s')
      → IsKept s' u
      → checkout ctx formats env' asked u ≡ (ok (marked response), u)
  checkout_later ctx formats env env' asked s u {response} {s'} given h kept =
      let request = completed_request ctx env asked in
      let first = checkout-IsAdmitted ctx formats env asked s h in
      let same = sym (completed_same ctx env env' asked given) in
      let (tx, found, answer, shifts, active) = checkout-answers ctx formats env asked s h in
      let admitted : IsAdmitted ctx request u = record {
        accepted = first.accepted;
        shift = first.shift;
        open_shift =
            active_shift-moves ctx request.store_id request.terminal_id s u first.open_shift
              (kept.shifts ∙ shifts) (kept.active ∙ active);
        has_items = first.has_items;
      } in
      checkout-known ctx formats env' asked u (subst (λ r. IsAdmitted ctx r u) same admitted) (
        subst (λ r. find_by_idem r.idempotency_key u ≡ some tx) same
          (kept.known request.idempotency_key tx found))
      ∙ ap (λ r. (ok r, u)) (sym answer)

  -- After a successful checkout with a key of its own the same request, sent again, is answered with
  -- the same sale, marked as a duplicate, and changes nothing, whatever the clock and the new
  -- identifiers are by then.
  pub checkout_again :
      (ctx : Context) (formats : Formats) (env env' : Env) (asked : CheckoutRequest F) (s : Store F)
      {response : CheckoutResponse} {s' : Store F}
      → asked.idempotency_key ≢ ""
      → checkout ctx formats env asked s ≡ (ok response, s')
      → checkout ctx formats env' asked s' ≡ (ok (record response { duplicate = true }), s')
  checkout_again ctx formats env env' asked s {response} {s'} given h =
      checkout_later ctx formats env env' asked s s' given h (IsKept-refl s')
