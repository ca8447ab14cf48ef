-- ===== src/Service/Sales/Money.antt =====
-- What the refunds of the service can give back.
use kasirinaja.Prelude.{
  ℕ, pos, String, none, some, ◌≡◌, refl, ◌≤◌, ◌<◌, ◌+◌, ◌^◌, arith, ap, ◌∙◌, sym, lookup, inl, inr,
  leb_ℤ, false,
}
use kasirinaja.Domain.{Env, RefundRequest, RefundResponse, Transaction, tx_status_refunded}
use kasirinaja.Store.{ok, Result-cases}
use kasirinaja.Memory.State.{Store}
use kasirinaja.Memory.Checkout.{find_by_id}
use kasirinaja.Memory.Sales.{find_transaction_by_id}
use kasirinaja.Memory.Refunds.{create_refund, complete_refund}
use kasirinaja.Memory.Refunds.Limit.{refunded, create_refund-ok, create_refund_limit}
use kasirinaja.Memory.Catalog.{create_audit_log}
use kasirinaja.Service.Context.{Context, later, log_audit}
use kasirinaja.Service.Sales.{requested_refund, refund, refund_detail}

requested_refund-status :
    (env env' : Env) (request : RefundRequest)
    → (complete_refund env' (requested_refund env request)).status ≡ tx_status_refunded
unfolding complete_refund requested_refund
requested_refund-status env env' request = refl

requested_refund-amount :
    (env env' : Env) (request : RefundRequest)
    → ((complete_refund env' (requested_refund env request)).amount_cents ≡ request.amount_cents)
      × ((requested_refund env request).original_transaction_id ≡ request.original_transaction_id)
unfolding complete_refund requested_refund
requested_refund-amount env env' request = (refl, refl)

module _ {F : Type 0} where
  log_audit-refunded :
      (ctx : Context) (env : Env) (store action type id detail tx : String) (s : Store F)
      → ((log_audit ctx env store action type id detail s).0 ≡ ok tt)
        × (refunded tx (log_audit ctx env store action type id detail s).1 ≡ refunded tx s)
  unfolding log_audit create_audit_log refunded
  log_audit-refunded ctx env store action type id detail tx s = ground arith

  refund-ok :
      (ctx : Context) (env : Env) (request : RefundRequest) (s : Store F) {tx : Transaction F}
      {response : RefundResponse} {s' : Store F}
      → refund ctx env request s ≡ (ok response, s')
      → find_by_id request.original_transaction_id s ≡ some tx
      → (leb_ℤ request.amount_cents (pos 0) ≡ false)
        × (after : Store F) × (create_refund (later 1 env) (requested_refund env request) s
            ≡ (ok response.refund, after))
        × (refunded request.original_transaction_id s'
            ≡ refunded request.original_transaction_id after)
  unfolding refund find_transaction_by_id
  refund-ok ctx env request s {tx} {response} {s'} h found =
      let (result, after) = create_refund (later 1 env) (requested_refund env request) s in
      elim (Result-cases result) [
        | inr (e, q) ↦ ground arith
        | inl (created, q) ↦
            let (noted, same) =
              log_audit-refunded ctx (later 1 env) tx.store_id "refund_transaction" "transaction"
                tx.id (refund_detail request) request.original_transaction_id after in
            let last_state =
              (log_audit ctx (later 1 env) tx.store_id "refund_transaction" "transaction" tx.id
                (refund_detail request) after).1 in
            let ends : s' ≡ last_state = ground arith in
            let made : created ≡ response.refund = ground arith in
            (
              ground arith,
              after,
              ap (λ r. (r, after)) q ∙ ap (λ r. (ok r, after)) made,
              ap (refunded request.original_transaction_id) ends ∙ same,
            )
      ]

  -- A refund that the service grants is of at least one cent, keeps the sum of the refunds of its
  -- transaction within the total that was paid, and adds its amount to that sum. The refund has an
  -- identifier of its own, and the amounts are Go integers, none negative.
  pub refund_limit :
      (ctx : Context) (env : Env) (request : RefundRequest) (s : Store F) {tx : Transaction F}
      {response : RefundResponse} {s' : Store F} (paid before amount : ℕ)
      → refund ctx env request s ≡ (ok response, s')
      → find_by_id request.original_transaction_id s ≡ some tx
      → lookup response.refund.id s.refunds_by_id ≡ none
      → tx.total_cents ≡ pos paid
      → refunded request.original_transaction_id s ≡ pos before
      → request.amount_cents ≡ pos amount
      → paid < 2 ^ 63
      → amount < 2 ^ 63
      → before ≤ paid
      → (0 < amount)
        × (before + amount ≤ paid)
        × (refunded request.original_transaction_id s' ≡ pos (before + amount))
  refund_limit ctx env request s {tx} {response} {s'} paid before amount h found new e r a hp ha
        le =
      let (positive, after, runs, same) = refund-ok ctx env request s h found in
      let asked = requested_refund env request in
      let (amount_is, id) = requested_refund-amount env (later 1 env) request in
      let found' : find_by_id asked.original_transaction_id s ≡ some tx =
        ap (λ id. find_by_id id s) id ∙ found in
      let made = (create_refund-ok (later 1 env) asked s runs found').0 in
      let (fits, sum, _) =
        create_refund_limit (later 1 env) asked s paid before amount runs found' new
          (ap (λ r. r.status) made ∙ requested_refund-status env (later 1 env) request) e
          (ap (λ id. refunded id s) id ∙ r) (ap (λ r. r.amount_cents) made ∙ amount_is ∙ a) hp ha
          le in
      (ground arith, fits, same ∙ ap (λ id. refunded id after) (sym id) ∙ sum)
