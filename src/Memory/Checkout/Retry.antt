-- ===== src/Memory/Checkout/Retry.antt =====
-- The idempotency key of a checkout: a retry finds the transaction that the first call made.
use kasirinaja.Prelude.{
  ◌≡◌, sym, ◌∙◌, some, length, lookup, insert, lookup-insert, false, get_elem?-append_last, str_eq,
  eq_refl, Float64, arith, inl, inr, Option-cases,
}
use kasirinaja.Domain.{Env, Transaction}
use kasirinaja.Store.{ok}
use kasirinaja.Memory.State.{Store}
use kasirinaja.Memory.Checkout.{find_by_id, find_by_idem, save_transaction, create_checkout}
use kasirinaja.Memory.Checkout.Inversion.{sold}
use kasirinaja.Memory.Checkout.Sale.{create_checkout-IsSale, paid_fields}

module _ {F : Type 0} where
  -- Both maps lead to a transaction that was just saved.
  pub find-save_transaction :
      (tx : Transaction F) (s : Store F)
      → (find_by_id tx.id (save_transaction tx s) ≡ some tx)
        × (find_by_idem tx.idempotency_key (save_transaction tx s) ≡ some tx)
  unfolding find_by_id find_by_idem save_transaction
  find-save_transaction tx s =
      let p = length s.heap in
      let last = get_elem?-append_last s.heap tx in
      let by_id : lookup tx.id (insert tx.id p s.transactions_by_id) ≡ some p =
        rw (lookup-insert, eq_refl) in
      let by_key : lookup tx.idempotency_key (insert tx.idempotency_key p s.transactions_by_idem)
          ≡ some p =
        rw (lookup-insert, eq_refl) in
      (ground arith, ground arith)

module _ {F : Type 0} ⦃fl : Float64 F⦄ where
  known_key :
      (env : Env) (tx : Transaction F) (s : Store F) {known : Transaction F}
      → (str_eq tx.idempotency_key "" ≡ false)
      → find_by_idem tx.idempotency_key s ≡ some known
      → create_checkout env tx s ≡ (ok known, s)
  unfolding create_checkout
  known_key env tx s e h = ground arith

  key_given :
      (env : Env) (tx : Transaction F) (s : Store F) {paid : Transaction F} {s' : Store F}
      → create_checkout env tx s ≡ (ok paid, s')
      → str_eq tx.idempotency_key "" ≡ false
  unfolding create_checkout
  key_given env tx s h = ground arith

  -- A second checkout with the key of a successful one returns the transaction of the first and
  -- changes nothing, whatever else it asks for.
  pub create_checkout_retry :
      (env env' : Env) (tx tx' : Transaction F) (s : Store F) {paid : Transaction F} {s' : Store F}
      → create_checkout env tx s ≡ (ok paid, s')
      → tx'.idempotency_key ≡ tx.idempotency_key
      → create_checkout env' tx' s' ≡ (ok paid, s')
  create_checkout_retry env env' tx tx' s {paid} {s'} h same =
      let given : str_eq tx'.idempotency_key "" ≡ false = rw same (key_given env tx s h) in
      elim (Option-cases (find_by_idem tx.idempotency_key s)) [
        | inr (known, e) ↦
            let first = known_key env tx s (key_given env tx s h) e in
            let pair = sym first ∙ h in
            let found : find_by_idem tx'.idempotency_key s' ≡ some paid = cc (e, same, pair) in
            known_key env' tx' s' given found
        | inl e ↦
            let sale = create_checkout-IsSale env tx s h e in
            let key = (paid_fields env tx paid sale.items sale.subtotal sale.pays).2 in
            let found = (find-save_transaction paid (sold env tx s paid.items)).1 in
            known_key env' tx' s' given (rw (same, ← key, sale.after) found)
      ]
