-- ===== src/Memory/Ledger/Kept.antt =====
-- The calls that leave the stock alone.
use kasirinaja.Prelude.{◌≡◌, ◌⊎◌, ◌∙◌, ap, String, some, inl, inr, Option-cases, Float64, arith}
use kasirinaja.Domain.{Time, Env, Transaction, Refund}
use kasirinaja.Store.{Error, ok, err, Result-cases}
use kasirinaja.Memory.State.{Store, stock_of}
use kasirinaja.Memory.Checkout.{
  priced, pay, ensure_lots, find_by_id, find_by_idem, fresh_checkout, create_checkout,
}
use kasirinaja.Memory.Checkout.Inversion.{checked}
use kasirinaja.Memory.Checkout.Stock.{stock_of-ensure_lots}
use kasirinaja.Memory.Sales.{write_transaction, void_transaction}
use kasirinaja.Memory.Refunds.{create_refund}

module _ {F : Type 0} ⦃fl : Float64 F⦄ where
  fresh_checkout-err :
      (env : Env) (tx : Transaction F) (s : Store F) (e : Error) (s' : Store F)
      → fresh_checkout env tx s ≡ (err e, s')
      → (s' ≡ s) ⊎ (s' ≡ ensure_lots tx.store_id s)
  unfolding fresh_checkout
  fresh_checkout-err env tx s e s' h = elim (Result-cases (checked env tx s)) [
    | inr (x, bad) ↦ ground arith
    | inl ((items, subtotal), good) ↦ elim (Result-cases (pay (priced env tx items subtotal))) [
      | inr (x, short) ↦ ground arith
      | inl (paid, pays) ↦ ground arith
    ]
  ]

  -- a checkout that is refused
  pub refused_checkout-stock :
      (env : Env) (tx : Transaction F) (s : Store F) {e : Error} {s' : Store F}
      → create_checkout env tx s ≡ (err e, s')
      → (store sku : String) → stock_of store sku s' ≡ stock_of store sku s
  unfolding create_checkout
  refused_checkout-stock env tx s {e} {s'} h store sku =
      let lots = stock_of-ensure_lots tx.store_id store sku s in
      elim (Option-cases (find_by_idem tx.idempotency_key s)) [
        | inr (existing, known) ↦ ground arith
        | inl new ↦
            let rest : (s' ≡ s) ⊎ (fresh_checkout env tx s ≡ (err e, s')) = ground arith in
            elim rest [
              | inl same ↦ ap (stock_of store sku) same
              | inr fails ↦ elim (fresh_checkout-err env tx s e s' fails) [
                | inl same ↦ ap (stock_of store sku) same
                | inr same ↦ ap (stock_of store sku) same ∙ lots
              ]
            ]
      ]

  -- a checkout under a key that is known
  pub repeated-same :
      (env : Env) (tx : Transaction F) (s : Store F) {paid existing : Transaction F} {s' : Store F}
      → create_checkout env tx s ≡ (ok paid, s')
      → find_by_idem tx.idempotency_key s ≡ some existing
      → s' ≡ s
  unfolding create_checkout
  repeated-same env tx s h known = ground arith

module _ {F : Type 0} where
  -- a void that is refused
  pub refused_void-same :
      (env : Env) (id reason : String) (at : Time) (s : Store F) {e : Error} {s' : Store F}
      → void_transaction env id reason at s ≡ (err e, s')
      → s' ≡ s
  unfolding void_transaction
  refused_void-same env id reason at s h = elim (Option-cases (find_by_id id s)) [
    | inl missing ↦ ground arith
    | inr (tx, found) ↦ ground arith
  ]

  -- a refund
  pub create_refund_stock :
      (env : Env) (request : Refund) (s : Store F) (store sku : String)
      → stock_of store sku (create_refund env request s).1 ≡ stock_of store sku s
  unfolding create_refund stock_of write_transaction
  create_refund_stock env request s store sku = ground arith
