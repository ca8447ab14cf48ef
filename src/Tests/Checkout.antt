-- ===== src/Tests/Checkout.antt =====
-- Sales, voids and refunds of a shop.
use kasirinaja.Prelude.{
  ℕ, pos, pos_part, String, ◌≡◌, ◌≢◌, All, refl, arith, none, ◌≤ℤ◌, ◌≤◌, ◌+◌, ◌-◌, lookup,
  lookup_inner, sub64, add64, mul64, foldl, map, eq_iff,
}
use kasirinaja.Store.{ok, fold_result}
use kasirinaja.Memory.State.{stock_of, lots_of}
use kasirinaja.Memory.Checkout.{
  create_checkout, find_by_idem, fresh_checkout, is_empty, check_line, pay, priced, percent_of,
}
use kasirinaja.Memory.Checkout.Lines.{add_line, order_of}
use kasirinaja.Memory.Checkout.Sale.{IsSettled, IsPriced, create_checkout_amounts}
use kasirinaja.Memory.Checkout.Tax.{create_checkout_total}
use kasirinaja.Memory.Checkout.Stock.{create_checkout_stock, demand}
use kasirinaja.Memory.Checkout.Retry.{create_checkout_retry}
use kasirinaja.Memory.Lots.{now_date_utc, available_by_lot, is_expired}
use kasirinaja.Memory.Lots.Fefo.{IsCount}
use kasirinaja.Tests.Fixed.{fixed, fixed-IsIeee}
use kasirinaja.Tests.Shop.{outside, shop, sale, paid, sold_shop}

pub first_sale : create_checkout outside (sale "k1") shop ≡ (ok paid, sold_shop)
unfolding create_checkout find_by_idem lookup fresh_checkout is_empty fold_result check_line sub64
    stock_of lookup_inner lots_of available_by_lot is_expired add64 mul64 pay priced now_date_utc
first_sale = refl

pub unknown_key : find_by_idem "k1" shop ≡ none
unfolding find_by_idem lookup
unknown_key = refl

pub stock-IsCount : (sku : String) → IsCount (stock_of "main" sku shop)
unfolding stock_of lookup_inner lookup
stock-IsCount sku = ground (arith, eq_iff "MILK" sku)

create_checkout_amounts_example :
    (map order_of paid.items ≡ map order_of (sale "k1").items)
    × All (IsPriced shop) paid.items
    × (paid.subtotal_cents ≡ foldl add_line (pos 0) paid.items)
    × (paid.discount_cents ≡ (sale "k1").discount_cents)
    × (paid.tax_rate_percent ≡ (sale "k1").tax_rate_percent)
    × (pos 0 ≤ℤ paid.discount_cents)
    × (paid.discount_cents ≤ℤ paid.subtotal_cents)
    × (paid.tax_cents
        ≡ percent_of (sub64 paid.subtotal_cents paid.discount_cents) paid.tax_rate_percent)
    × (paid.total_cents ≡ add64 (sub64 paid.subtotal_cents paid.discount_cents) paid.tax_cents)
    × IsSettled paid
create_checkout_amounts_example =
    create_checkout_amounts outside (sale "k1") shop first_sale unknown_key

create_checkout_total_example :
    (discount : ℕ) × (tax : ℕ) × (paid.discount_cents ≡ pos discount)
    × (discount ≤ 3000)
    × (paid.tax_cents ≡ pos tax)
    × (tax ≤ 3000 - discount)
    × (paid.total_cents ≡ pos (3000 - discount + tax))
create_checkout_total_example =
    create_checkout_total fixed-IsIeee outside (sale "k1") shop 3000 first_sale unknown_key refl
      refl (omega arith)

create_checkout_retry_example : create_checkout outside (sale "k1") sold_shop ≡ (ok paid, sold_shop)
create_checkout_retry_example =
    create_checkout_retry outside outside (sale "k1") (sale "k1") shop first_sale refl

create_checkout_stock_example :
    (demand "MILK" (map order_of (sale "k1").items) ≤ pos_part (stock_of "main" "MILK" shop))
    × (stock_of "main" "MILK" sold_shop
        ≡ pos (
            pos_part (stock_of "main" "MILK" shop)
            - demand "MILK" (map order_of (sale "k1").items)))
    × ((store : String)
        → store ≢ "main"
        → stock_of store "MILK" sold_shop ≡ stock_of store "MILK" shop)
create_checkout_stock_example =
    create_checkout_stock outside (sale "k1") shop first_sale unknown_key (refl, tt)
      (omega arith, tt) stock-IsCount "MILK"
