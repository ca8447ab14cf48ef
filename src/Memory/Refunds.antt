-- ===== src/Memory/Refunds.antt =====
-- `Store.CreateRefund`.
pub mod Limit
use kasirinaja.Prelude.{
  ℤ, pos, ◌&&◌, ◌||◌, String, List, [], ◌∷◌, insert, values, str_eq, ltb_ℤ, leb_ℤ, add64, sub64,
  if◌then◌else◌,
}
use kasirinaja.Domain.{Env, or_new_id, or_now, Refund, tx_status_voided, tx_status_refunded}
use kasirinaja.Store.{
  not_found, invalid_transaction, Action, pure, gets, or_raise, raise_if, modify, ◌>>=◌, ◌>>◌,
}
use kasirinaja.Memory.State.{Store}
use kasirinaja.Memory.Checkout.{find_by_id}
use Prim.Native.String.{◌++◌ as str_append}
use kasirinaja.Memory.Sales.{write_transaction}

-- The cents refunded so far for a transaction.
unfoldable pub refunded_so_far : String → ℤ → List Refund → ℤ
refunded_so_far id sum [] = sum
refunded_so_far id sum (item ∷ items) =
    refunded_so_far id
      (if str_eq item.original_transaction_id id && str_eq item.status tx_status_refunded
        then add64 sum item.amount_cents
        else sum)
      items

unfoldable pub complete_refund : Env → Refund → Refund
unfolding or_new_id or_now
complete_refund env refund = record refund {
  id = or_new_id env "refund" 0 refund.id;
  created_at = or_now env 0 refund.created_at;
  status = if str_eq refund.status "" then tx_status_refunded else refund.status;
}

module _ {F : Type 0} where
  unfoldable pub create_refund : Env → Refund → Action (Store F) Refund
  create_refund env request = do
    let refund = complete_refund env request
    let id = refund.original_transaction_id
    tx ← or_raise (← gets (find_by_id id)) not_found
    raise_if (str_eq tx.status tx_status_voided || str_eq tx.status tx_status_refunded)
        invalid_transaction
    so_far ← gets (λ s. refunded_so_far id (pos 0) (values s.refunds_by_id))
    raise_if (ltb_ℤ (sub64 tx.total_cents so_far) refund.amount_cents) invalid_transaction
    modify λ s.
        if leb_ℤ tx.total_cents (add64 so_far refund.amount_cents)
        then write_transaction id (record tx { status = tx_status_refunded }) s
        else s
    modify λ s. record s { refunds_by_id = insert refund.id refund s.refunds_by_id }
    pure refund
