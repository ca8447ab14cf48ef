-- ===== src/Tests/Shop.antt =====
-- A shop with two stores that the witnesses start from.
use kasirinaja.Prelude.{ℕ, zero, suc, ℤ, pos, String, true, false, none, some, [], ◌∷◌}
use kasirinaja.Domain.{Env, Product, Transaction, InventoryLot, Refund, PurchaseOrder}
use kasirinaja.Memory.State.{Store}
use kasirinaja.Memory.Checkout.{create_checkout}
use kasirinaja.Tests.Fixed.{Fixed, fixed}
use Prim.Native.String.{◌++◌ as str_append}

-- The clock stands still, and every identifier is its prefix and its number.
abbrev pub outside : Env
outside = record {
  now = λ i. 900;
  new_id = λ prefix i. str_append prefix (elim i [ zero ↦ "-0" | suc _ ↦ "-1" ]);
}

abbrev pub milk : Product Fixed
milk = record {
  sku = "MILK";
  name = "Milk";
  category = "dairy";
  price_cents = pos 1000;
  margin_rate = 2000;
  active = true;
}

abbrev pub lot : String → ℤ → ℕ → InventoryLot
lot id qty at = record {
  id = id;
  store_id = "main";
  sku = "MILK";
  lot_code = id;
  expiry_date = none;
  qty_received = qty;
  qty_available = qty;
  cost_cents = pos 700;
  source_type = "manual";
  source_id = "";
  notes = "";
  received_at = at;
}

abbrev pub order : PurchaseOrder
order = record {
  id = "po";
  store_id = "main";
  supplier_id = "farm";
  status = "ordered";
  created_at = 100;
  received_at = none;
  received_by = "";
  items = record { sku = "MILK"; qty = pos 4; cost_cents = pos 650 } ∷ [];
}

abbrev pub shop : Store Fixed
shop = record {
  products = ("MILK", milk) ∷ [];
  inventory = ("main", ("MILK", pos 5) ∷ []) ∷ ("side", ("MILK", pos 2) ∷ []) ∷ [];
  inventory_lots = ("main", ("MILK", lot "new" (pos 3) 20 ∷ lot "old" (pos 2) 10 ∷ []) ∷ []) ∷ [];
  association_pairs = [];
  heap = [];
  transactions_by_id = [];
  transactions_by_idem = [];
  refunds_by_id = [];
  item_returns_by_id = [];
  price_history_by_sku = [];
  audit_logs = [];
  recommendation_log = [];
  shifts_by_id = [];
  active_shift_by_key = [];
  promos_by_id = [];
  held_carts_by_id = [];
  suppliers_by_id = [];
  purchase_orders_by_id = ("po", order) ∷ [];
  product_costs = ("main", ("MILK", pos 700) ∷ []) ∷ [];
  users_by_username = [];
}

-- Three units for cash, 10 % tax and 200 off.
abbrev pub sale : String → Transaction Fixed
sale key = record {
  id = "";
  store_id = "main";
  terminal_id = "t1";
  shift_id = "s1";
  idempotency_key = key;
  payment_method = "cash";
  payment_reference = "";
  payment_splits = [];
  subtotal_cents = pos 0;
  discount_cents = pos 200;
  tax_rate_percent = 100_000;
  tax_cents = pos 0;
  total_cents = pos 0;
  cash_received_cents = pos 4000;
  change_cents = pos 0;
  status = "";
  void_reason = "";
  voided_at = none;
  recommendation_shown = false;
  recommendation_accepted = false;
  recommendation_sku = "";
  created_at = 0;
  items = record { sku = "MILK"; qty = pos 3; unit_price_cents = pos 0; margin_rate = 0 } ∷ [];
}

abbrev pub paid : Transaction Fixed
paid = record (sale "k1") {
  id = "tx-0";
  subtotal_cents = pos 3000;
  tax_cents = pos 280;
  total_cents = pos 3080;
  change_cents = pos 920;
  status = "paid";
  created_at = 900;
  items =
      record { sku = "MILK"; qty = pos 3; unit_price_cents = pos 1000; margin_rate = 2000 } ∷ [];
}

abbrev pub sold_shop : Store Fixed
sold_shop = (create_checkout outside (sale "k1") shop).1

abbrev pub gone : Transaction Fixed
gone = record paid { status = "voided"; void_reason = "wrong"; voided_at = some 950 }

abbrev pub refund : Refund
refund = record {
  id = "";
  original_transaction_id = "tx-0";
  reason = "spoilt";
  amount_cents = pos 1080;
  status = "";
  created_at = 0;
}

abbrev pub made_refund : Refund
made_refund = record refund { id = "refund-0"; status = "refunded"; created_at = 900 }

-- The shop with one sale on record.
abbrev pub till : Store Fixed
till = record shop {
  heap = paid ∷ [];
  transactions_by_id = ("tx-0", 0) ∷ [];
  transactions_by_idem = ("k1", 0) ∷ [];
}
