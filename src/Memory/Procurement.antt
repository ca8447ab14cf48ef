-- ===== src/Memory/Procurement.antt =====
-- `Store`: suppliers, purchase orders, and the weighted cost of what they bring in.
use kasirinaja.Prelude.{
  ℕ, ℤ, pos, ◌||◌, ◌&&◌, not, String, none, some, List, [], ◌∷◌, lookup, insert, values, is_some,
  str_eq, str_lt, filter, ltb, ◌==◌, ltb_ℤ, sort_by, to_upper, to_lower, trim_space, if◌then◌else◌,
}
use kasirinaja.Domain.{
  Time, Env, or_new_id, or_now, Supplier, PurchaseOrder, PurchaseOrderItem, InventoryLot,
}
use kasirinaja.Store.{
  not_found, invalid_transaction, Result, ok, err, Action, pure, gets, lift, or_raise, raise_if,
  modify, ◌>>=◌, ◌>>◌, bind,
}
use kasirinaja.Memory.State.{Store}
use kasirinaja.Memory.Checkout.{is_empty}
use kasirinaja.Memory.Carts.{latest_first, limited}

module _ {F : Type 0} where
  unfoldable pub create_supplier : Env → Supplier → Action (Store F) Supplier
  unfolding or_new_id or_now
  create_supplier env request = do
    let name = trim_space request.name
    raise_if (str_eq name "") invalid_transaction
    let supplier = record request {
      name = name;
      id = or_new_id env "sup" 0 request.id;
      created_at = or_now env 0 request.created_at;
    }
    modify λ s. record s { suppliers_by_id = insert supplier.id supplier s.suppliers_by_id }
    pure supplier

  -- The earliest first, and of two at one time the smaller name first.
  unfoldable pub list_suppliers : Action (Store F) (List Supplier)
  list_suppliers = gets λ s.
      sort_by
        (λ a b.
          if a.created_at == b.created_at
          then str_lt a.name b.name
          else ltb a.created_at b.created_at)
        (values s.suppliers_by_id)

-- The items with their codes in upper case, or an error where one of them is incomplete.
unfoldable pub normalize_order : List PurchaseOrderItem → Result (List PurchaseOrderItem)
normalize_order [] = ok []
normalize_order (item ∷ items) =
    let sku = to_upper (trim_space item.sku) in
    if str_eq sku "" || ltb_ℤ item.qty (pos 1) || ltb_ℤ item.cost_cents (pos 1)
    then err invalid_transaction
    else bind (normalize_order items) λ rest. ok (record item { sku = sku } ∷ rest)

-- The lot that a received item becomes; `i` is its index in the order.
unfoldable pub order_lot :
    Env → Time → PurchaseOrder → ℕ → String → PurchaseOrderItem → InventoryLot
order_lot env at po i code item = record {
  id = env.new_id "lot" i;
  store_id = po.store_id;
  sku = item.sku;
  lot_code = code;
  expiry_date = none;
  qty_received = item.qty;
  qty_available = item.qty;
  cost_cents = item.cost_cents;
  source_type = "purchase_order";
  source_id = po.id;
  notes = "auto lot from purchase order receive";
  received_at = at;
}

unfoldable pub received_order : String → Time → PurchaseOrder → PurchaseOrder
received_order by at po =
    let name = trim_space by in
    record po {
      status = "received";
      received_by = if str_eq name "" then "system" else name;
      received_at = some at;
    }

module _ {F : Type 0} where
  unfoldable pub create_purchase_order : Env → PurchaseOrder → Action (Store F) PurchaseOrder
  unfolding or_new_id or_now is_empty normalize_order
  create_purchase_order env request = do
    raise_if (str_eq request.store_id "" || str_eq request.supplier_id "" || is_empty request.items)
        invalid_transaction
    supplier ← gets (λ s. lookup request.supplier_id s.suppliers_by_id)
    raise_if (not (is_some supplier)) not_found
    items ← lift (normalize_order request.items)
    let po = record request {
      id = or_new_id env "po" 0 request.id;
      created_at = or_now env 0 request.created_at;
      status = if str_eq request.status "" then "draft" else request.status;
      items = items;
    }
    modify λ s. record s { purchase_orders_by_id = insert po.id po s.purchase_orders_by_id }
    pure po

  unfoldable pub get_purchase_order_by_id : String → Action (Store F) PurchaseOrder
  get_purchase_order_by_id id = do
    or_raise (← gets (λ s. lookup id s.purchase_orders_by_id)) not_found

  unfoldable pub list_purchase_orders : String → String → ℤ → Action (Store F) (List PurchaseOrder)
  unfolding latest_first limited
  list_purchase_orders store status limit =
      let wanted = to_lower (trim_space status) in
      gets λ s. limited limit (
        sort_by (λ a b. latest_first a.created_at a.id b.created_at b.id)
          (filter
            (λ po.
              (str_eq store "" || str_eq po.store_id store)
              && (str_eq wanted "" || str_eq po.status wanted))
            (values s.purchase_orders_by_id)))
