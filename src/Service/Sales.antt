-- ===== src/Service/Sales.antt =====
-- Voids, refunds and the offline envelopes of a terminal.
pub mod Offline
pub mod Resend
pub mod Money
use kasirinaja.Prelude.{
  ℤ, pos, ◌||◌, Bool, String, Option, none, some, List, [], ◌∷◌, str_eq, ltb_ℤ, leb_ℤ, show_int,
  if◌then◌else◌, Float64, suc, ℕ, ◌*◌, ◌+◌,
}
use kasirinaja.Domain.{
  Env, Refund, RefundRequest, RefundResponse, VoidTransactionRequest, VoidTransactionResponse,
  CheckoutRequest, CheckoutResponse, OfflineTransaction, OfflineSyncRequest, OfflineSyncResponse,
  OfflineSyncStatus, tx_status_voided, tx_status_refunded,
}
use kasirinaja.Store.{
  Error, not_found, insufficient_stock, invalid_transaction, wrapped, message, Result, ok, err,
  Action, pure, raise_if, ◌>>=◌, ◌>>◌,
}
use kasirinaja.Memory.State.{Store}
use kasirinaja.Memory.Sales.{void_transaction as store_void_transaction, find_transaction_by_id}
use kasirinaja.Memory.Refunds.{create_refund}
use kasirinaja.Service.Context.{Context, Formats, later, attempt, log_audit}
use kasirinaja.Service.Checkout.{checkout}
use Prim.Native.String.{◌++◌ as str_append}

-- `err.Error()`
unfoldable pub error_text : Error → String
error_text not_found = "not found"
error_text insufficient_stock = "insufficient stock"
error_text invalid_transaction = "invalid transaction"
error_text (wrapped e text) = str_append (error_text e) (str_append ": " text)
error_text (message text) = text

-- The refund that `Refund` hands to the store.
unfoldable pub requested_refund : Env → RefundRequest → Refund
requested_refund env request = record {
  id = env.new_id "refund" 0;
  original_transaction_id = request.original_transaction_id;
  reason = request.reason;
  amount_cents = request.amount_cents;
  status = tx_status_refunded;
  created_at = env.now 0;
}

unfoldable pub offline_status : String → Result CheckoutResponse → OfflineSyncStatus
unfolding error_text
offline_status client (err e) = record {
  client_transaction_id = client;
  status = "rejected";
  reason = error_text e;
  transaction_id = "";
}
offline_status client (ok response) = record {
  client_transaction_id = client;
  status = if response.duplicate then "duplicate" else "accepted";
  reason = "";
  transaction_id = response.transaction_id;
}

unfoldable pub refund_detail : RefundRequest → String
refund_detail request =
    str_append "amount="
      (str_append (show_int request.amount_cents) (str_append ",reason=" request.reason))

module _ {F : Type 0} where
  unfoldable pub void_transaction :
      Context → Formats → Env → VoidTransactionRequest → Action (Store F) VoidTransactionResponse
  void_transaction ctx formats env request = do
    raise_if (str_eq request.transaction_id "") invalid_transaction
    let reason = if str_eq request.reason "" then "unspecified" else request.reason
    let at = env.now 0
    tx ← store_void_transaction (later 1 env) request.transaction_id reason at
    log_audit ctx (later 1 env) tx.store_id "void_transaction" "transaction" tx.id reason
    pure (record { transaction_id = tx.id; status = tx.status; voided_at = formats.rfc3339 at })

  unfoldable pub refund : Context → Env → RefundRequest → Action (Store F) RefundResponse
  refund ctx env request = do
    raise_if (str_eq request.original_transaction_id "" || leb_ℤ request.amount_cents (pos 0))
        invalid_transaction
    tx ← find_transaction_by_id request.original_transaction_id
    raise_if (str_eq tx.status tx_status_voided)
        (wrapped invalid_transaction "voided transaction cannot be refunded")
    raise_if (str_eq tx.status tx_status_refunded) invalid_transaction
    raise_if (ltb_ℤ tx.total_cents request.amount_cents) invalid_transaction
    created ← create_refund (later 1 env) (requested_refund env request)
    log_audit ctx (later 1 env) tx.store_id "refund_transaction" "transaction" tx.id
        (refund_detail request)
    pure (record { refund = created })

module _ {F : Type 0} ⦃fl : Float64 F⦄ where
  -- A transaction of an envelope as a checkout, with what the envelope says for all.
  unfoldable pub offline_checkout : OfflineSyncRequest F → OfflineTransaction F → CheckoutRequest F
  offline_checkout request tx =
      let asked = tx.checkout in
      record asked {
        store_id = if str_eq asked.store_id "" then request.store_id else asked.store_id;
        terminal_id =
            if str_eq asked.terminal_id "" then request.terminal_id else asked.terminal_id;
        idempotency_key =
            if str_eq asked.idempotency_key ""
            then tx.client_transaction_id
            else asked.idempotency_key;
      }

  -- The loop over the envelope; a checkout takes at most ten times and identifiers.
  unfoldable pub sync_each :
      Context
      → Formats
      → Env
      → OfflineSyncRequest F
      → List (OfflineTransaction F)
      → Action (Store F) (List OfflineSyncStatus)
  sync_each ctx formats env request [] = pure []
  sync_each ctx formats env request (tx ∷ txs) = do
    result ← attempt (checkout ctx formats env (offline_checkout request tx))
    rest ← sync_each ctx formats (later 10 env) request txs
    pure (offline_status tx.client_transaction_id result ∷ rest)

  unfoldable pub sync_offline :
      Context → Formats → Env → OfflineSyncRequest F → Action (Store F) OfflineSyncResponse
  sync_offline ctx formats env request = do
    statuses ← sync_each ctx formats env request request.transactions
    pure (record { envelope_id = request.envelope_id; statuses = statuses })
