-- ===== src/Tests/Books.antt =====
-- The ledger of the shop over a sale that is sent twice and then voided.
use kasirinaja.Prelude.{
  ◌+◌, ◌<◌, ◌≤◌, ap, ◌^◌, pos_part, String, ◌≡◌, refl, arith, some, List, [], ◌∷◌, lookup, insert,
  lookup_inner, eq_iff, str_eq, map, if◌then◌else◌, sub64, add64, mul64,
}
use kasirinaja.Store.{ok, fold_result}
use kasirinaja.Memory.State.{Store, stock_of, lots_of}
use kasirinaja.Memory.Checkout.{
  create_checkout, find_by_id, find_by_idem, fresh_checkout, is_empty, check_line, pay, priced,
  sell_line, save_transaction, ensure_lots,
}
use kasirinaja.Memory.Checkout.Lines.{order_of}
use kasirinaja.Memory.Checkout.Stock.{demand, create_checkout_stock}
use kasirinaja.Memory.Lots.{now_date_utc, available_by_lot, is_expired}
use kasirinaja.Memory.Sales.{void_transaction, voided}
use kasirinaja.Memory.Ledger.{
  Ledger, Change, take, give, keep, replay, Holds, AllowsEach, checkout, repeated, void, Run, done,
  next,
}
use kasirinaja.Memory.Ledger.Refines.{Run-refines}
use kasirinaja.Tests.Fixed.{Fixed, fixed}
use kasirinaja.Tests.Shop.{outside, shop, sale, paid, gone, sold_shop}
use kasirinaja.Tests.Checkout.{first_sale, unknown_key, stock-IsCount}

abbrev books : Ledger
books store sku =
    if str_eq "MILK" sku
    then (if str_eq "main" store then 5 else if str_eq "side" store then 2 else 0)
    else 0

shop-Holds : Holds shop books
unfolding stock_of lookup_inner lookup
shop-Holds = record {
  stock = λ store sku. ground (arith, eq_iff "MILK" sku, eq_iff "main" store, eq_iff "side" store);
  range = λ store sku. ground arith;
}

known_key : find_by_idem "k1" sold_shop ≡ some paid
unfolding create_checkout find_by_idem lookup fresh_checkout is_empty fold_result check_line sub64
    stock_of lookup_inner lots_of available_by_lot is_expired add64 mul64 pay priced now_date_utc
    save_transaction insert sell_line ensure_lots
known_key = refl

sent_again : create_checkout outside (sale "k1") sold_shop ≡ (ok paid, sold_shop)
unfolding create_checkout find_by_idem lookup fresh_checkout is_empty fold_result check_line sub64
    stock_of lookup_inner lots_of available_by_lot is_expired add64 mul64 pay priced now_date_utc
    save_transaction insert sell_line ensure_lots
sent_again = refl

known_id : find_by_id "tx-0" sold_shop ≡ some paid
unfolding create_checkout find_by_idem find_by_id lookup fresh_checkout is_empty fold_result
    check_line sub64 stock_of lookup_inner lots_of available_by_lot is_expired add64 mul64 pay
    priced now_date_utc save_transaction insert sell_line ensure_lots
known_id = refl

abbrev voided_shop : Store Fixed
voided_shop = (void_transaction outside "tx-0" "wrong" 950 sold_shop).1

sale_voided : void_transaction outside "tx-0" "wrong" 950 sold_shop ≡ (ok gone, voided_shop)
unfolding void_transaction voided create_checkout find_by_idem find_by_id lookup fresh_checkout
    is_empty fold_result check_line sub64 stock_of lookup_inner lots_of available_by_lot is_expired
    add64 mul64 pay priced now_date_utc save_transaction insert sell_line ensure_lots
sale_voided = refl

books-le : (store sku : String) → books store sku ≤ 5
books-le store sku = ground arith

room :
    (sku : String)
    → pos_part (stock_of "main" sku sold_shop) + demand sku (map order_of paid.items) < 2 ^ 63
room sku =
    let (covered, left, _) =
      create_checkout_stock outside (sale "k1") shop first_sale unknown_key (refl, tt)
        (omega arith, tt) stock-IsCount sku in
    omega (arith, ap pos_part left, ap pos_part (shop-Holds.stock "main" sku), books-le "main" sku)

abbrev day_run : List Change
day_run =
    take "main" (map order_of (sale "k1").items) ∷ keep ∷ give "main" (map order_of paid.items) ∷ []

abbrev run : Run shop voided_shop day_run
run =
    next shop sold_shop voided_shop _ _
      (checkout outside (sale "k1") paid first_sale unknown_key _ refl)
      (next sold_shop sold_shop voided_shop _ _
        (repeated outside (sale "k1") paid paid sent_again known_key _ refl)
        (next sold_shop voided_shop voided_shop _ _
          (void outside "tx-0" "wrong" 950 paid gone sale_voided known_id _ refl)
          (done voided_shop)))

Run-refines_example : AllowsEach books day_run × Holds voided_shop (replay day_run books)
Run-refines_example =
    Run-refines books run (((refl, tt), (omega arith, tt)), (tt, (((omega arith, tt), room), tt)))
      shop-Holds
