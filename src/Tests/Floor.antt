-- ===== src/Tests/Floor.antt =====
-- Shifts and held carts.
use kasirinaja.Prelude.{
  pos, String, ◌≡◌, ◌≢◌, refl, arith, none, some, [], false, lookup, insert, trim_space, ◌∷◌,
}
use kasirinaja.Domain.{or_new_id, or_now, Shift, HeldCart}
use kasirinaja.Store.{ok, err, invalid_transaction, not_found}
use kasirinaja.Memory.State.{Store}
use kasirinaja.Memory.Shifts.{create_shift, close_active_shift, get_active_shift, shift_map_key}
use kasirinaja.Memory.Shifts.Life.{
  create_shift_exclusive, close_active_shift_ends, IsConsistent, opens, closes, ShiftRun, here,
  next,
}
use kasirinaja.Memory.Shifts.Invariant.{ShiftRun-IsConsistent}
use kasirinaja.Memory.Carts.{create_held_cart, pop_held_cart}
use kasirinaja.Memory.Carts.Hold.{hold_and_pop}
use kasirinaja.Tests.Fixed.{Fixed}
use kasirinaja.Memory.Catalog.{create_audit_log}
use kasirinaja.Service.Context.{log_audit}
use kasirinaja.Service.Carts.{resume_held_cart, discard_held_cart}
use kasirinaja.Service.Carts.Resume.{resume_held_cart_once}
use kasirinaja.Tests.Till.{cashier}
use kasirinaja.Tests.Shop.{outside, shop}

abbrev wanted : Shift
wanted = record {
  id = "";
  store_id = "main";
  terminal_id = "t1";
  cashier_name = "Sari";
  opening_float_cents = pos 500;
  closing_cash_cents = pos 0;
  status = "";
  opened_at = 0;
  closed_at = none;
}

abbrev opened : Shift
opened = record wanted { id = "shift-0"; status = "open"; opened_at = 900 }

abbrev ended : Shift
ended = record opened { status = "closed"; closed_at = some 990; closing_cash_cents = pos 700 }

abbrev open_shop : Store Fixed
open_shop = (create_shift outside wanted shop).1

abbrev closed_shop : Store Fixed
closed_shop = (close_active_shift outside "main" "t1" (pos 700) 990 open_shop).1

opening : create_shift outside wanted shop ≡ (ok opened, open_shop)
unfolding create_shift lookup trim_space or_new_id or_now
opening = refl

closing : close_active_shift outside "main" "t1" (pos 700) 990 open_shop ≡ (ok ended, closed_shop)
unfolding close_active_shift create_shift lookup trim_space insert shift_map_key or_new_id or_now
closing = refl

create_shift_exclusive_example :
    (get_active_shift "main" "t1" open_shop ≡ (ok opened, open_shop))
    × (create_shift outside wanted open_shop ≡ (err invalid_transaction, open_shop))
create_shift_exclusive_example =
    create_shift_exclusive outside outside wanted wanted shop opening refl refl

close_active_shift_ends_example :
    (ended.status ≡ "closed")
    × (ended.closing_cash_cents ≡ pos 700)
    × ((id : String) × (lookup (shift_map_key "main" "t1") open_shop.active_shift_by_key ≡ some id)
        × (lookup id closed_shop.shifts_by_id ≡ some ended)
        × ((other : String)
            → other ≢ id
            → lookup other closed_shop.shifts_by_id ≡ lookup other open_shop.shifts_by_id))
    × (get_active_shift "main" "t1" closed_shop ≡ (err not_found, closed_shop))
    × (close_active_shift outside "main" "t1" (pos 1) 999 closed_shop
        ≡ (err not_found, closed_shop))
close_active_shift_ends_example =
    close_active_shift_ends outside outside "main" "t1" (pos 700) (pos 1) 990 999 open_shop closing

no_shift : (id : String) → lookup id shop.active_shift_by_key ≡ none
unfolding lookup
no_shift id = refl

shop-IsConsistent : IsConsistent shop
shop-IsConsistent = record {
  is_open = λ key id e. ground (arith, no_shift key);
  one_terminal = λ key key' id e e'. ground (arith, no_shift key);
}

new_shift : lookup opened.id shop.shifts_by_id ≡ none
unfolding lookup
new_shift = refl

abbrev day_run : ShiftRun shop closed_shop
day_run =
    next (next here (opens outside wanted opened opening new_shift))
      (closes outside "main" "t1" (pos 700) 990 ended closing)

ShiftRun-IsConsistent_example : IsConsistent closed_shop
ShiftRun-IsConsistent_example = ShiftRun-IsConsistent shop-IsConsistent day_run

abbrev cart : HeldCart Fixed
cart = record {
  id = "";
  store_id = "main";
  terminal_id = "t1";
  cashier_username = "sari";
  note = "";
  cart_items = record { sku = "MILK"; qty = pos 1 } ∷ [];
  discount_cents = pos 0;
  tax_rate_percent = 0;
  payment_method = "cash";
  payment_reference = "";
  payment_splits = [];
  cash_received_cents = pos 0;
  manual_override = false;
  held_at = 0;
}

abbrev held : HeldCart Fixed
held = record cart { id = "hold-0"; held_at = 900 }

abbrev held_shop : Store Fixed
held_shop = (create_held_cart outside cart shop).1

holding : create_held_cart outside cart shop ≡ (ok held, held_shop)
unfolding create_held_cart
holding = refl

hold_and_pop_example :
    (after : Store Fixed) × (pop_held_cart "hold-0" held_shop ≡ (ok held, after))
    × (pop_held_cart "hold-0" after ≡ (err not_found, after))
    × ((id : String)
        → id ≢ "hold-0"
        → lookup id after.held_carts_by_id ≡ lookup id shop.held_carts_by_id)
hold_and_pop_example = hold_and_pop outside cart shop holding

abbrev resumed_shop : Store Fixed
resumed_shop = (resume_held_cart cashier outside " hold-0 " held_shop).1

resumes :
    resume_held_cart cashier outside " hold-0 " held_shop
    ≡ (ok (record { held_cart = held }), resumed_shop)
unfolding resume_held_cart pop_held_cart create_held_cart insert lookup trim_space log_audit
    create_audit_log
resumes = refl

resume_held_cart_once_example :
    (lookup (trim_space " hold-0 ") held_shop.held_carts_by_id ≡ some held)
    × (resume_held_cart cashier outside " hold-0 " resumed_shop ≡ (err not_found, resumed_shop))
    × (discard_held_cart cashier outside " hold-0 " resumed_shop ≡ (err not_found, resumed_shop))
resume_held_cart_once_example =
    resume_held_cart_once cashier outside outside " hold-0 " held_shop resumes
