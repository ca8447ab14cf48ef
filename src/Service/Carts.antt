-- ===== src/Service/Carts.antt =====
-- Carts on hold.
pub mod Resume
use kasirinaja.Prelude.{
  ℤ, pos, ◌||◌, not, String, List, str_eq, trim_space, length, show_nat, if◌then◌else◌,
}
use kasirinaja.Domain.{Env, HeldCart, HoldCartRequest, HoldCartResponse, HeldCartListResponse}
use kasirinaja.Store.{invalid_transaction, Action, pure, raise_if, ◌>>=◌, ◌>>◌}
use kasirinaja.Memory.State.{Store}
use kasirinaja.Memory.Checkout.{is_empty}
use kasirinaja.Memory.Carts.{
  create_held_cart, list_held_carts as store_list_held_carts, pop_held_cart,
}
use kasirinaja.Service.Context.{Context, Formats, later, or_default_store, actor_name, log_audit}
use kasirinaja.Service.Items.{normalize_items}
use kasirinaja.Service.Payments.{normalize_payment_splits, is_supported_payment_method}
use Prim.Native.String.{◌++◌ as str_append}

unfoldable pub cart_detail {ℓ} : {A : Type ℓ} → List A → String
cart_detail items = str_append "items=" (show_nat (length items))

module _ {F : Type 0} where
  -- The cart that `HoldCart` hands to the store.
  unfoldable pub requested_hold : Context → Formats → Env → HoldCartRequest F → HeldCart F
  unfolding or_default_store is_empty actor_name
  requested_hold ctx formats env request =
      let splits = normalize_payment_splits request.payment_splits in
      let named = if is_empty splits then trim_space request.payment_method else "split" in
      let method = if str_eq named "" then "cash" else named in
      record {
        id = env.new_id "hold" 0;
        store_id = or_default_store ctx request.store_id;
        terminal_id = trim_space request.terminal_id;
        cashier_username = actor_name ctx;
        note = trim_space request.note;
        cart_items = normalize_items request.cart_items;
        discount_cents = request.discount_cents;
        tax_rate_percent = request.tax_rate_percent;
        payment_method = method;
        payment_reference =
            if str_eq method "split"
            then formats.marshal_splits splits
            else request.payment_reference;
        payment_splits = splits;
        cash_received_cents = request.cash_received_cents;
        manual_override = request.manual_override;
        held_at = env.now 0;
      }

  unfoldable pub hold_cart :
      Context → Formats → Env → HoldCartRequest F → Action (Store F) (HoldCartResponse F)
  hold_cart ctx formats env request = do
    let held = requested_hold ctx formats env request
    raise_if (str_eq held.terminal_id "" || not (is_supported_payment_method held.payment_method))
        invalid_transaction
    raise_if (is_empty held.cart_items) invalid_transaction
    saved ← create_held_cart (later 1 env) held
    log_audit ctx (later 1 env) held.store_id "cart_hold" "held_cart" held.id
        (cart_detail held.cart_items)
    pure (record { held_cart = saved })

  unfoldable pub list_held_carts :
      Context → String → String → Action (Store F) (HeldCartListResponse F)
  unfolding or_default_store
  list_held_carts ctx store asked = do
    let terminal = trim_space asked
    raise_if (str_eq terminal "") invalid_transaction
    items ← store_list_held_carts (or_default_store ctx store) terminal (pos 200)
    pure (record { items = items })

  unfoldable pub resume_held_cart : Context → Env → String → Action (Store F) (HoldCartResponse F)
  resume_held_cart ctx env asked = do
    let id = trim_space asked
    raise_if (str_eq id "") invalid_transaction
    held ← pop_held_cart id
    log_audit ctx env held.store_id "cart_resume" "held_cart" held.id (cart_detail held.cart_items)
    pure (record { held_cart = held })

  unfoldable pub discard_held_cart : Context → Env → String → Action (Store F) (Unit {0})
  discard_held_cart ctx env asked = do
    let id = trim_space asked
    raise_if (str_eq id "") invalid_transaction
    held ← pop_held_cart id
    log_audit ctx env held.store_id "cart_discard" "held_cart" held.id "discarded"
    pure tt
