-- ===== src/Tests/Till.antt =====
-- Checkouts at a till with an open shift.
use kasirinaja.Prelude.{
  ℕ, pos, pos_part, String, ◌≡◌, ◌≢◌, refl, arith, none, some, true, false, [], ◌∷◌, ◌≤◌, ◌<◌, ◌-◌,
  ◌^◌, List, map, All, ◌⊎◌, eq_iff, lookup, lookup_inner, insert, sub64, add64, mul64,
}
use kasirinaja.Domain.{CheckoutRequest, CheckoutResponse, CartItem, PromoRule, Shift}
use kasirinaja.Store.{ok, fold_result}
use kasirinaja.Memory.State.{Store, stock_of, lots_of}
use kasirinaja.Memory.Checkout.{
  find_by_idem, create_checkout, fresh_checkout, check_line, pay, priced, is_empty, percent_of,
}
use kasirinaja.Memory.Lots.{available_by_lot, is_expired, now_date_utc}
use kasirinaja.Memory.Shifts.{get_active_shift, shift_map_key}
use kasirinaja.Memory.Sales.{find_transaction_by_idempotency}
use kasirinaja.Service.Payments.{is_supported_payment_method, normalize_payment_splits}
use kasirinaja.Memory.Checkout.Stock.{demand, Distinct}
use kasirinaja.Memory.Lots.Fefo.{IsCount}
use kasirinaja.Memory.Catalog.{list_promos, get_products_by_skus, create_audit_log}
use kasirinaja.Service.Context.{Context, Formats, or_default_store, later, log_audit}
use kasirinaja.Service.Items.{normalize_items, aggregate, add_item}
use kasirinaja.Service.Items.Once.{cart_order, normalize_items_lem}
use kasirinaja.Service.Promos.{
  calculate_promo_discount, best_discount, better, is_skipped, rule_discount,
}
use kasirinaja.Service.Promos.Best.{IsBeaten, calculate_promo_discount_lem}
use kasirinaja.Service.Checkout.{
  completed_request, checkout, request_error, active_shift, new_checkout, add_price,
  capped_discount, settle, requested_sale, log_recommendation, to_checkout_response,
}
use kasirinaja.Service.Checkout.Again.{checkout_again}
use kasirinaja.Service.Checkout.Goods.{checkout_stock}
use kasirinaja.Tests.Fixed.{Fixed, fixed}
use kasirinaja.Tests.Shop.{outside, shop}

abbrev pub cashier : Context
cashier = record {
  actor = some (record { username = "sari"; role = "cashier" });
  default_store_id = "main";
}

abbrev pub formats : Formats
formats = record {
  marshal_splits = λ splits. "[]";
  unmarshal_splits = λ text. none;
  rfc3339 = λ at. "0001-01-01T00:00:00Z";
}

abbrev morning : Shift
morning = record {
  id = "s1";
  store_id = "main";
  terminal_id = "t1";
  cashier_name = "Sari";
  opening_float_cents = pos 500;
  closing_cash_cents = pos 0;
  status = "open";
  opened_at = 1;
  closed_at = none;
}

abbrev promo : PromoRule Fixed
promo = record {
  id = "p1";
  name = "Opening week";
  type = "flat_cart";
  min_subtotal_cents = pos 1000;
  discount_percent = 0;
  flat_discount_cents = pos 150;
  active = true;
  created_at = 1;
}

abbrev pub till : Store Fixed
till = record shop {
  shifts_by_id = ("s1", morning) ∷ [];
  active_shift_by_key = ("main::t1", "s1") ∷ [];
  promos_by_id = ("p1", promo) ∷ [];
}

abbrev cart : List CartItem
cart = record { sku = "MILK"; qty = pos 1 } ∷ record { sku = "MILK"; qty = pos 2 } ∷ []

abbrev pub asked : CheckoutRequest Fixed
asked = record {
  store_id = "";
  terminal_id = "t1";
  idempotency_key = "k9";
  payment_method = "";
  payment_reference = "";
  payment_splits = [];
  cash_received_cents = pos 4000;
  discount_cents = pos 50;
  tax_rate_percent = 100_000;
  manual_override = false;
  cart_items = cart;
  recommendation_info = record {
    shown = false;
    accepted = false;
    sku = "";
    reason_code = "";
    confidence = 0;
  };
}

abbrev answer : CheckoutResponse
answer = record {
  transaction_id = "tx-1";
  status = "paid";
  payment_method = "cash";
  payment_splits = [];
  subtotal_cents = pos 3000;
  discount_cents = pos 200;
  tax_cents = pos 280;
  total_cents = pos 3080;
  cash_received = pos 4000;
  change_cents = pos 920;
  item_count = pos 3;
  shift_id = "s1";
  recommendation = none;
  duplicate = false;
  created_at = "0001-01-01T00:00:00Z";
}

abbrev sold_till : Store Fixed
sold_till = (checkout cashier formats outside asked till).1

sells : checkout cashier formats outside asked till ≡ (ok answer, sold_till)
unfolding checkout lookup request_error is_supported_payment_method completed_request
    normalize_payment_splits active_shift get_active_shift shift_map_key normalize_items aggregate
    add_item insert find_transaction_by_idempotency find_by_idem new_checkout get_products_by_skus
    fold_result add_price calculate_promo_discount list_promos best_discount better is_skipped
    rule_discount capped_discount settle requested_sale create_checkout fresh_checkout check_line
    pay priced is_empty sub64 add64 mul64 stock_of lookup_inner lots_of available_by_lot is_expired
    now_date_utc percent_of log_recommendation log_audit to_checkout_response later or_default_store
    create_audit_log
sells = refl

key_given : asked.idempotency_key ≢ ""
key_given e = ground (arith, eq_iff "k9" "")

pub milk_named : ◌≢◌ {A = String} "MILK" ""
milk_named e = ground (arith, eq_iff "MILK" "")

new_key : find_by_idem (completed_request cashier outside asked).idempotency_key till ≡ none
unfolding find_by_idem lookup completed_request
new_key = refl

till_counts :
    (sku : String) → IsCount (stock_of (completed_request cashier outside asked).store_id sku till)
unfolding stock_of lookup_inner lookup completed_request or_default_store
till_counts sku = ground (arith, eq_iff "MILK" sku)

cart_counts :
    (sku : String)
    → demand sku (map cart_order (completed_request cashier outside asked).cart_items) < 2 ^ 63
unfolding completed_request
cart_counts sku = ground (arith, eq_iff "MILK" sku)

checkout_again_example :
    checkout cashier formats outside asked sold_till
    ≡ (ok (record answer { duplicate = true }), sold_till)
checkout_again_example = checkout_again cashier formats outside outside asked till key_given sells

normalize_items_lem_example :
    Distinct (map cart_order (normalize_items cart))
    × (demand "MILK" (map cart_order (normalize_items cart)) ≡ demand "MILK" (map cart_order cart))
normalize_items_lem_example = normalize_items_lem cart "MILK" milk_named (omega arith)

calculate_promo_discount_lem_example :
    (promos : List (PromoRule Fixed)) × (discount : ℕ) × (list_promos till ≡ (ok promos, till))
    × (calculate_promo_discount (pos 3000) till ≡ (ok (pos discount), till))
    × (discount ≤ 3000)
    × (All (IsBeaten (pos 3000) (pos discount)) promos ⊎ (discount ≡ 3000))
calculate_promo_discount_lem_example = calculate_promo_discount_lem 3000 till

checkout_stock_example :
    (3 ≤ pos_part (stock_of "main" "MILK" till))
    × (stock_of "main" "MILK" sold_till ≡ pos (pos_part (stock_of "main" "MILK" till) - 3))
    × ((store : String)
        → store ≢ "main"
        → stock_of store "MILK" sold_till ≡ stock_of store "MILK" till)
unfolding completed_request
checkout_stock_example =
    checkout_stock cashier formats outside asked till sells new_key till_counts cart_counts "MILK"
      milk_named
