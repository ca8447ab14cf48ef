-- ===== src/Tests/Offline.antt =====
-- Offline envelopes at a till with an open shift.
use kasirinaja.Prelude.{
  String, ◌≡◌, ◌≢◌, refl, arith, [], ◌∷◌, List, map, All, eq_iff, lookup, lookup_inner, insert,
  sub64, add64, mul64,
}
use kasirinaja.Domain.{OfflineSyncRequest, OfflineSyncStatus}
use kasirinaja.Store.{ok, fold_result}
use kasirinaja.Memory.State.{Store, stock_of, lots_of}
use kasirinaja.Memory.Checkout.{
  find_by_idem, create_checkout, sell_line, ensure_lots, save_transaction, fresh_checkout,
  check_line, pay, priced, is_empty, percent_of,
}
use kasirinaja.Memory.Lots.{available_by_lot, is_expired, now_date_utc}
use kasirinaja.Memory.Shifts.{get_active_shift, shift_map_key}
use kasirinaja.Memory.Sales.{find_transaction_by_idempotency}
use kasirinaja.Service.Payments.{is_supported_payment_method, normalize_payment_splits}
use kasirinaja.Memory.Catalog.{list_promos, get_products_by_skus, create_audit_log}
use kasirinaja.Service.Context.{or_default_store, later, log_audit}
use kasirinaja.Service.Items.{normalize_items, aggregate, add_item}
use kasirinaja.Service.Promos.{
  calculate_promo_discount, best_discount, better, is_skipped, rule_discount,
}
use kasirinaja.Service.Checkout.{
  completed_request, checkout, request_error, active_shift, new_checkout, add_price,
  capped_discount, settle, requested_sale, log_recommendation, to_checkout_response,
}
use kasirinaja.Service.Sales.{sync_offline}
use kasirinaja.Service.Sales.Offline.{sync_offline_lem}
use kasirinaja.Tests.Fixed.{Fixed, fixed}
use kasirinaja.Tests.Shop.{outside}
use kasirinaja.Service.Sales.{error_text, offline_checkout, offline_status, sync_each}
use kasirinaja.Service.Sales.Resend.{AllResent, sync_offline_resent}
use kasirinaja.Tests.Till.{cashier, formats, till, asked}

abbrev envelope : OfflineSyncRequest Fixed
envelope = record {
  store_id = "main";
  terminal_id = "t1";
  envelope_id = "e1";
  transactions =
      record { client_transaction_id = "c1"; checkout = asked }
      ∷ record { client_transaction_id = "c2"; checkout = record asked { cart_items = [] } }
      ∷ [];
}

sync_offline_lem_example :
    (statuses : List OfflineSyncStatus) × (s' : Store Fixed) × (sync_offline cashier formats outside
        envelope till
      ≡ (ok (record { envelope_id = "e1"; statuses = statuses }), s'))
    × (map (λ status. status.client_transaction_id) statuses ≡ "c1" ∷ "c2" ∷ [])
sync_offline_lem_example = sync_offline_lem cashier formats outside envelope till

abbrev synced : Store Fixed
synced = (sync_offline cashier formats outside envelope till).1

abbrev statuses : String → List OfflineSyncStatus
statuses word =
    record { client_transaction_id = "c1"; status = word; reason = ""; transaction_id = "tx-1" }
    ∷ record {
      client_transaction_id = "c2";
      status = "rejected";
      reason = "invalid transaction";
      transaction_id = "";
    }
    ∷ []

sends :
    sync_offline cashier formats outside envelope till
    ≡ (ok (record { envelope_id = "e1"; statuses = statuses "accepted" }), synced)
unfolding sync_offline sync_each offline_checkout offline_status error_text sell_line ensure_lots
    save_transaction checkout lookup request_error is_supported_payment_method completed_request
    normalize_payment_splits active_shift get_active_shift shift_map_key normalize_items aggregate
    add_item insert find_transaction_by_idempotency find_by_idem new_checkout get_products_by_skus
    fold_result add_price calculate_promo_discount list_promos best_discount better is_skipped
    rule_discount capped_discount settle requested_sale create_checkout fresh_checkout check_line
    pay priced is_empty sub64 add64 mul64 stock_of lookup_inner lots_of available_by_lot is_expired
    now_date_utc percent_of log_recommendation log_audit to_checkout_response later or_default_store
    create_audit_log
sends = refl

resends : sync_offline cashier formats outside envelope synced ≡ (
  ok (record { envelope_id = "e1"; statuses = statuses "duplicate" }),
  (sync_offline cashier formats outside envelope synced).1,
)
unfolding sync_offline sync_each offline_checkout offline_status error_text sell_line ensure_lots
    save_transaction checkout lookup request_error is_supported_payment_method completed_request
    normalize_payment_splits active_shift get_active_shift shift_map_key normalize_items aggregate
    add_item insert find_transaction_by_idempotency find_by_idem new_checkout get_products_by_skus
    fold_result add_price calculate_promo_discount list_promos best_discount better is_skipped
    rule_discount capped_discount settle requested_sale create_checkout fresh_checkout check_line
    pay priced is_empty sub64 add64 mul64 stock_of lookup_inner lots_of available_by_lot is_expired
    now_date_utc percent_of log_recommendation log_audit to_checkout_response later or_default_store
    create_audit_log
resends = refl

keyed : ◌≢◌ {A = String} "k9" ""
keyed e = ground (arith, eq_iff "k9" "")

keys_given : All (λ tx. (offline_checkout envelope tx).idempotency_key ≢ "") envelope.transactions
unfolding offline_checkout
keys_given = (keyed, (keyed, tt))

sync_offline_resent_example : AllResent (statuses "accepted") (statuses "duplicate")
sync_offline_resent_example =
    sync_offline_resent cashier formats outside outside envelope till keys_given sends resends
