-- ===== src/Memory/Checkout/Inversion.antt =====
-- What a successful `CreateCheckout` has done, step by step.
use kasirinaja.Prelude.{ℤ, pos, ◌≡◌, false, List, [], inl, inr, ltb_ℤ, Float64, foldl, arith}
use kasirinaja.Domain.{Env, TransactionLine, Transaction}
use kasirinaja.Store.{Result, ok, fold_result, Result-cases}
use kasirinaja.Memory.State.{Store, stock_of, lots_of}
use kasirinaja.Memory.Lots.{now_date_utc}
use kasirinaja.Memory.Checkout.{
  is_empty, check_line, priced, pay, sell_line, save_transaction, ensure_lots, fresh_checkout,
}

module _ {F : Type 0} ⦃fl : Float64 F⦄ where
  open fl use {of_int, lt}

  -- the loop over the lines
  abbrev pub checked : Env → Transaction F → Store F → Result (List (TransactionLine F) × ℤ)
  checked env tx s =
      fold_result
        (check_line s.products (now_date_utc (env.now 0)) (λ sku. stock_of tx.store_id sku s)
          (λ sku. lots_of tx.store_id sku s))
        ([], pos 0) tx.items

  -- the state after the lines of a sale were taken off
  abbrev pub sold : Env → Transaction F → Store F → List (TransactionLine F) → Store F
  sold env tx s items =
      foldl (sell_line (now_date_utc (env.now 0)) tx.store_id) (ensure_lots tx.store_id s) items

  pub record IsSale (env : Env) (tx : Transaction F) (s : Store F) (paid : Transaction F)
      (s' : Store F) : Type 0 where
    pub items : List (TransactionLine F)
    pub subtotal : ℤ
    pub checks : checked env tx s ≡ ok (items, subtotal)
    pub has_items : is_empty tx.items ≡ false
    pub discount_nonneg : ltb_ℤ tx.discount_cents (pos 0) ≡ false
    pub discount_le : ltb_ℤ subtotal tx.discount_cents ≡ false
    pub rate_nonneg : lt tx.tax_rate_percent (of_int (pos 0)) ≡ false
    pub rate_le : lt (of_int (pos 100)) tx.tax_rate_percent ≡ false
    pub pays : pay (priced env tx items subtotal) ≡ ok paid
    pub after : s' ≡ save_transaction paid (sold env tx s paid.items)

  pub fresh_checkout-IsSale :
      (env : Env) (tx : Transaction F) (s : Store F) (paid : Transaction F) (s' : Store F)
      → fresh_checkout env tx s ≡ (ok paid, s')
      → IsSale env tx s paid s'
  unfolding fresh_checkout
  fresh_checkout-IsSale env tx s paid s' h = elim (Result-cases (checked env tx s)) [
    | inr (e, q) ↦ ground arith
    | inl ((items, subtotal), q) ↦ record {
      items = items;
      subtotal = subtotal;
      checks = q;
      has_items = ground arith;
      discount_nonneg = ground arith;
      discount_le = ground arith;
      rate_nonneg = ground arith;
      rate_le = ground arith;
      pays = ground arith;
      after = ground arith;
    }
  ]
