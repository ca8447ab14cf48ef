-- ===== src/Service/Opname.antt =====
-- `StockOpname`: counting the stock.
use kasirinaja.Prelude.{
  ℤ, pos, ◌||◌, not, String, List, [], ◌∷◌, Dict, lookup, get_or, str_eq, ltb_ℤ, eqb_ℤ, sub64,
  trim_space, to_upper, if◌then◌else◌, length, show_nat,
}
use kasirinaja.Domain.{
  Env, StockOpnameItem, StockOpnameRequest, StockOpnameAdjustment, StockOpnameResponse,
}
use kasirinaja.Store.{
  invalid_transaction, message, Action, Result, ok, err, pure, lift, raise_if, bind, ◌>>=◌, ◌>>◌,
}
use kasirinaja.Memory.State.{Store}
use kasirinaja.Memory.Checkout.{is_empty}
use kasirinaja.Memory.Inventory.{get_stock_map, set_stock}
use kasirinaja.Service.Context.{Context, Formats, later, is_admin, or_default_store, log_audit}
use Prim.Native.String.{◌++◌ as str_append}

-- The codes of the items, trimmed and in upper case.
unfoldable pub counted_skus : List StockOpnameItem → Result (List String)
counted_skus [] = ok []
counted_skus (item ∷ items) =
    let sku = to_upper (trim_space item.sku) in
    let rest = counted_skus items in
    if str_eq sku "" || ltb_ℤ item.counted_qty (pos 0)
    then err invalid_transaction
    else (bind rest λ skus. ok (sku ∷ skus))

module _ {F : Type 0} where
  -- One round of the second loop, which goes by the code as it was sent.
  unfoldable pub adjust_item :
      String → Dict ℤ → StockOpnameItem → Action (Store F) StockOpnameAdjustment
  adjust_item store system item = do
    let system_qty = get_or (lookup item.sku system) (pos 0)
    if eqb_ℤ system_qty item.counted_qty then pure tt else set_stock store item.sku item.counted_qty
    pure (record {
      sku = item.sku;
      system_qty = system_qty;
      counted_qty = item.counted_qty;
      delta_qty = sub64 item.counted_qty system_qty;
    })

  unfoldable pub adjust_each :
      String → Dict ℤ → List StockOpnameItem → Action (Store F) (List StockOpnameAdjustment)
  adjust_each store system [] = pure []
  adjust_each store system (item ∷ items) = do
    adjustment ← adjust_item store system item
    rest ← adjust_each store system items
    pure (adjustment ∷ rest)

  unfoldable pub stock_opname :
      Context → Formats → Env → StockOpnameRequest → Action (Store F) StockOpnameResponse
  stock_opname ctx formats env request = do
    raise_if (not (is_admin ctx)) (message "admin role required")
    let store = or_default_store ctx request.store_id
    raise_if (is_empty request.items) invalid_transaction
    skus ← lift (counted_skus request.items)
    system ← get_stock_map store skus
    adjustments ← adjust_each store system request.items
    let id = env.new_id "opname" 0
    log_audit ctx (later 1 env) store "stock_opname" "inventory" id (
        str_append "items="
          (str_append (show_nat (length request.items)) (str_append ",notes=" request.notes)))
    pure (record {
      opname_id = id;
      store_id = store;
      notes = request.notes;
      adjustments = adjustments;
      created_at = formats.rfc3339 (env.now 2);
    })
