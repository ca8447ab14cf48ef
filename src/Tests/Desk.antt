-- ===== src/Tests/Desk.antt =====
-- Requests that need the PIN of the manager.
use kasirinaja.Prelude.{◌*◌, ◌^◌, pos, String, Option, none, []}
use kasirinaja.Domain.{VoidTransactionRequest, RefundRequest, ItemReturnRequest}
use kasirinaja.Store.{ok, err, message}
use kasirinaja.Http.Auth.{AuthManager}
use kasirinaja.Http.Csrf.{Request}
use kasirinaja.Http.Handlers.{
  Api, new_api, handle_transaction_actions, handle_refunds, handle_item_returns,
}
use kasirinaja.Http.Handlers.Pin.{Guarded, pin_guard}
use kasirinaja.Tests.Fixed.{Fixed, fixed}
use kasirinaja.Tests.Shop.{outside, till}
use kasirinaja.Tests.Till.{cashier, formats}
use kasirinaja.Tests.Security.{crypt}

abbrev manager : AuthManager
manager = record {
  secret = "secret";
  token_ttl = 2 * 10 ^ 9;
  manager_pin = "$2a$739154";
  users = [];
}

abbrev desk : Api Fixed
desk = new_api till manager

abbrev no_address : String → Option String
no_address host = none

abbrev sent : Request
sent = record {
  method = "POST";
  path = "/api/v1/transactions/tx-0/void";
  remote_addr = "10.0.0.7:4321";
  header = λ name. "";
}

abbrev void_request : VoidTransactionRequest
void_request = record { transaction_id = ""; reason = "wrong"; manager_pin = "739154" }

abbrev refund_request : RefundRequest
refund_request = record {
  original_transaction_id = "tx-0";
  reason = "spoilt";
  amount_cents = pos 80;
  manager_pin = "000000";
}

pin_guard_example :
    Guarded crypt no_address 900 sent desk "pin:void:"
      (λ q. q.manager_pin)
      (ok void_request)
      (handle_transaction_actions crypt no_address cashier formats outside sent
        (ok void_request)
        desk)
    × Guarded crypt no_address 900 sent desk "pin:refund:"
        (λ q. q.manager_pin)
        (ok refund_request)
        (handle_refunds crypt no_address cashier formats outside sent (ok refund_request) desk)
    × Guarded crypt no_address 900 sent desk "pin:return:"
        (λ (q : ItemReturnRequest). q.manager_pin)
        (err (message "EOF"))
        (handle_item_returns crypt no_address cashier formats outside sent
          (err (message "EOF"))
          desk)
pin_guard_example =
    pin_guard crypt no_address cashier formats outside sent (ok void_request) (ok refund_request)
      (err (message "EOF")) desk
