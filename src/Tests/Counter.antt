-- ===== src/Tests/Counter.antt =====
-- A refund at the counter.
use kasirinaja.Prelude.{pos, ◌≡◌, refl, arith, none, some, ◌<◌, ◌≤◌, ◌+◌, lookup, sub64}
use kasirinaja.Domain.{RefundRequest}
use kasirinaja.Store.{ok}
use kasirinaja.Memory.State.{Store}
use kasirinaja.Memory.Checkout.{find_by_id}
use kasirinaja.Memory.Sales.{find_transaction_by_id}
use kasirinaja.Memory.Refunds.{create_refund, complete_refund, refunded_so_far}
use kasirinaja.Memory.Refunds.Limit.{refunded}
use kasirinaja.Memory.Catalog.{create_audit_log}
use kasirinaja.Service.Context.{later, log_audit}
use kasirinaja.Service.Sales.{refund, requested_refund}
use kasirinaja.Service.Sales.Money.{refund_limit}
use kasirinaja.Tests.Fixed.{Fixed}
use kasirinaja.Tests.Shop.{outside, till, paid, made_refund}
use kasirinaja.Tests.Till.{cashier}

abbrev request : RefundRequest
request = record {
  original_transaction_id = "tx-0";
  reason = "spoilt";
  amount_cents = pos 1080;
  manager_pin = "";
}

abbrev refunded_till : Store Fixed
refunded_till = (refund cashier outside request till).1

refunds :
    refund cashier outside request till ≡ (ok (record { refund = made_refund }), refunded_till)
unfolding refund find_transaction_by_id find_by_id lookup create_refund complete_refund
    refunded_so_far sub64 requested_refund log_audit create_audit_log later
refunds = refl

found_sale : find_by_id "tx-0" till ≡ some paid
unfolding find_by_id lookup
found_sale = refl

no_refund : lookup made_refund.id till.refunds_by_id ≡ none
unfolding lookup
no_refund = refl

none_before : refunded "tx-0" till ≡ pos 0
unfolding refunded refunded_so_far
none_before = refl

refund_limit_example :
    (0 < 1080) × (0 + 1080 ≤ 3080) × (refunded "tx-0" refunded_till ≡ pos (0 + 1080))
refund_limit_example =
    refund_limit cashier outside request till 3080 0 1080 refunds found_sale no_refund refl
      none_before refl (omega arith) (omega arith) (omega arith)
