-- ===== src/Tests/Voids.antt =====
-- Voids and refunds of a sale.
use kasirinaja.Prelude.{
  pos, pos_part, String, ◌≡◌, ◌≢◌, refl, arith, none, some, ◌≤◌, ◌+◌, inr, lookup, lookup_inner,
  map, sub64,
}
use kasirinaja.Domain.{Refund}
use kasirinaja.Store.{ok, err, invalid_transaction}
use kasirinaja.Memory.State.{Store, stock_of}
use kasirinaja.Memory.Checkout.{find_by_idem, find_by_id}
use kasirinaja.Memory.Checkout.Lines.{order_of}
use kasirinaja.Memory.Checkout.Stock.{demand}
use kasirinaja.Memory.Sales.{void_transaction, voided}
use kasirinaja.Memory.Sales.Void.{void_transaction_stock, void_transaction_seen}
use kasirinaja.Memory.Refunds.{create_refund, complete_refund, refunded_so_far}
use kasirinaja.Memory.Refunds.Limit.{refunded, create_refund_limit, create_refund_refused}
use kasirinaja.Tests.Fixed.{Fixed}
use kasirinaja.Tests.Shop.{outside, till, paid, gone, refund, made_refund}

found_sale : find_by_id "tx-0" till ≡ some paid
unfolding find_by_id lookup
found_sale = refl

abbrev void_shop : Store Fixed
void_shop = (void_transaction outside "tx-0" "wrong" 950 till).1

voids : void_transaction outside "tx-0" "wrong" 950 till ≡ (ok gone, void_shop)
unfolding void_transaction find_by_id lookup voided
voids = refl

same_pointer : lookup "k1" till.transactions_by_idem ≡ lookup "tx-0" till.transactions_by_id
unfolding lookup
same_pointer = refl

void_transaction_seen_example :
    (gone.status ≡ "voided")
    × (find_by_id "tx-0" void_shop ≡ some gone)
    × (find_by_idem "k1" void_shop ≡ some gone)
    × (void_transaction outside "tx-0" "again" 960 void_shop ≡ (err invalid_transaction, void_shop))
void_transaction_seen_example =
    void_transaction_seen outside outside "tx-0" "k1" "wrong" "again" 950 960 till voids found_sale
      same_pointer

milk_left : stock_of "main" "MILK" till ≡ pos 5
unfolding stock_of lookup_inner lookup
milk_left = refl

void_transaction_stock_example :
    (stock_of "main" "MILK" void_shop
      ≡ pos (pos_part (stock_of "main" "MILK" till) + demand "MILK" (map order_of paid.items)))
    × ((store : String)
        → store ≢ "main"
        → stock_of store "MILK" void_shop ≡ stock_of store "MILK" till)
void_transaction_stock_example =
    void_transaction_stock outside "tx-0" "wrong" 950 till voids found_sale (omega arith, tt) "MILK"
      (ground (arith, milk_left)) (ground (arith, milk_left))

abbrev refund_shop : Store Fixed
refund_shop = (create_refund outside refund till).1

refunds : create_refund outside refund till ≡ (ok made_refund, refund_shop)
unfolding create_refund find_by_id lookup complete_refund refunded_so_far sub64
refunds = refl

no_refund : lookup made_refund.id till.refunds_by_id ≡ none
unfolding lookup
no_refund = refl

none_before : refunded "tx-0" till ≡ pos 0
unfolding refunded refunded_so_far
none_before = refl

abbrev too_much : Refund
too_much = record refund { amount_cents = pos 3081 }

create_refund_limit_example :
    (1080 ≤ 3080)
    × (refunded "tx-0" refund_shop ≡ pos 1080)
    × (find_by_id "tx-0" refund_shop ≡ some paid)
create_refund_limit_example =
    create_refund_limit outside refund till 3080 0 1080 refunds found_sale no_refund refl refl
      none_before refl (omega arith) (omega arith) (omega arith)

create_refund_refused_example :
    create_refund outside too_much till ≡ (err invalid_transaction, till)
create_refund_refused_example =
    create_refund_refused outside too_much till 3080 0 3081 found_sale refl none_before refl
      (omega arith) (omega arith) (inr (inr (omega arith)))
