-- ===== src/Service/Lots.antt =====
-- Lots that are received by hand: `ReceiveInventoryLot` and `ListInventoryLots`.
use kasirinaja.Prelude.{
  ℤ, pos, not, ◌||◌, Bool, String, Option, none, some, str_eq, ltb_ℤ, trim_space, to_upper,
  show_int, if◌then◌else◌,
}
use kasirinaja.Domain.{
  Time, Env, InventoryLot, InventoryLotReceiveRequest, InventoryLotListResponse,
}
use kasirinaja.Store.{
  invalid_transaction, message, Action, Result, ok, err, pure, lift, raise_if, ◌>>=◌, ◌>>◌,
}
use kasirinaja.Memory.State.{Store}
use kasirinaja.Memory.Inventory.{
  create_inventory_lot, list_inventory_lots as store_list_inventory_lots,
}
use kasirinaja.Service.Context.{Context, later, is_admin, or_default_store, log_audit}
use kasirinaja.Service.Texts.{Texts}
use Prim.Native.String.{◌++◌ as str_append}

module _ {F : Type 0} where
  -- A lot without a date does not expire.
  unfoldable pub expiry_of : Texts F → String → Result (Option Time)
  expiry_of texts date =
      if str_eq (trim_space date) ""
      then ok none
      else elim (texts.parse_date date) [ none ↦ err invalid_transaction | some at ↦ ok (some at) ]

  unfoldable pub receive_inventory_lot :
      Context → Texts F → Env → InventoryLotReceiveRequest → Action (Store F) InventoryLot
  unfolding expiry_of
  receive_inventory_lot ctx texts env request = do
    raise_if (not (is_admin ctx)) (message "admin role required")
    let store = or_default_store ctx request.store_id
    let sku = to_upper (trim_space request.sku)
    raise_if (str_eq sku "" || ltb_ℤ request.qty (pos 1) || ltb_ℤ request.cost_cents (pos 1))
        invalid_transaction
    expiry ← lift (expiry_of texts request.expiry_date)
    lot ← create_inventory_lot (later 1 env) (record {
      id = env.new_id "lot" 0;
      store_id = store;
      sku = sku;
      lot_code = trim_space request.lot_code;
      expiry_date = expiry;
      qty_received = request.qty;
      qty_available = request.qty;
      cost_cents = request.cost_cents;
      source_type = "manual";
      source_id = "";
      notes = trim_space request.notes;
      received_at = env.now 0;
    })
    log_audit ctx (later 2 env) store "inventory_lot_receive" "inventory_lot" lot.id (
        str_append "sku=" (
          str_append lot.sku (
            str_append ",qty=" (
              str_append (show_int lot.qty_received) (str_append ",expiry=" request.expiry_date)))))
    pure lot

  unfoldable pub list_inventory_lots :
      Context → Env → String → String → Bool → ℤ → Action (Store F) InventoryLotListResponse
  list_inventory_lots ctx env store sku include_expired limit = do
    lots ←
        store_list_inventory_lots env (or_default_store ctx store) (to_upper (trim_space sku))
          include_expired limit
    pure (record { lots = lots })
