-- ===== src/Memory/Receiving.antt =====
-- `Store.ReceivePurchaseOrder`: stock, weighted cost and lots of a delivery.
pub mod Cost
pub mod Delivery
use kasirinaja.Prelude.{
  ℕ, suc, ◌+◌, ℤ, pos, ◌||◌, String, List, [], ◌∷◌, ◌++◌, lookup, insert, insert_inner, is_some,
  str_eq, ltb_ℤ, leb_ℤ, add64, mul64, if◌then◌else◌, Float64, show_padded,
}
use kasirinaja.Domain.{Time, Env, or_now, PurchaseOrder, PurchaseOrderItem}
use kasirinaja.Store.{
  not_found, invalid_transaction, Action, pure, gets, or_raise, raise_if, modify, ◌>>=◌, ◌>>◌,
}
use kasirinaja.Memory.State.{Store, stock_of, lots_of, cost_of}
use Prim.Native.String.{◌++◌ as str_append}
use kasirinaja.Memory.Procurement.{order_lot, received_order}

unfoldable pub weighted_cost_cents : {F : Type 0} → Float64 F → ℤ → ℤ → ℤ → ℤ → ℤ
weighted_cost_cents fl old_cost old_qty incoming_cost incoming_qty =
    let total_qty = add64 old_qty incoming_qty in
    let total_value = add64 (mul64 old_cost old_qty) (mul64 incoming_cost incoming_qty) in
    let weighted = fl.round (fl.div (fl.of_int total_value) (fl.of_int total_qty)) in
    if leb_ℤ incoming_qty (pos 0) || leb_ℤ incoming_cost (pos 0)
    then old_cost
    else (if leb_ℤ old_qty (pos 0) || leb_ℤ old_cost (pos 0)
        then incoming_cost
        else (if leb_ℤ total_qty (pos 0)
            then incoming_cost
            else (if ltb_ℤ weighted (pos 1) then pos 1 else weighted)))

-- `fmt.Sprintf("PO-%s-%02d", po.ID, idx+1)`
unfoldable pub order_lot_code : PurchaseOrder → ℕ → String
order_lot_code po i = str_append "PO-" (str_append po.id (str_append "-" (show_padded 2 (i + 1))))

module _ {F : Type 0} where
  -- The inner maps of a store are made where they are missing.
  unfoldable pub ensure_store : String → Store F → Store F
  ensure_store store s = record s {
    inventory =
        if is_some (lookup store s.inventory) then s.inventory else insert store [] s.inventory;
    product_costs =
        if is_some (lookup store s.product_costs)
        then s.product_costs
        else insert store [] s.product_costs;
    inventory_lots =
        if is_some (lookup store s.inventory_lots)
        then s.inventory_lots
        else insert store [] s.inventory_lots;
  }

module _ {F : Type 0} ⦃fl : Float64 F⦄ where
  unfoldable pub receive_item :
      Env → Time → PurchaseOrder → ℕ → PurchaseOrderItem → Store F → Store F
  unfolding weighted_cost_cents order_lot order_lot_code
  receive_item env at po i item s =
      let store = po.store_id in
      let current = stock_of store item.sku s in
      let recorded = cost_of store item.sku s in
      let previous = if ltb_ℤ recorded (pos 1) then item.cost_cents else recorded in
      let cost = weighted_cost_cents fl previous current item.cost_cents item.qty in
      let lot = order_lot env at po i (order_lot_code po i) item in
      record s {
        inventory = insert_inner store item.sku (add64 current item.qty) s.inventory;
        product_costs = insert_inner store item.sku cost s.product_costs;
        inventory_lots =
            insert_inner store item.sku (lots_of store item.sku s ++ (lot ∷ [])) s.inventory_lots;
      }

  -- The loop stops at an incomplete item, and keeps what it has written.
  unfoldable pub receive_items :
      Env → Time → PurchaseOrder → ℕ → List PurchaseOrderItem → Action (Store F) (Unit {0})
  receive_items env at po i [] = pure tt
  receive_items env at po i (item ∷ items) = do
    raise_if (ltb_ℤ item.qty (pos 1) || ltb_ℤ item.cost_cents (pos 1)) invalid_transaction
    modify (receive_item env at po i item)
    receive_items env at po (suc i) items

  unfoldable pub receive_purchase_order :
      Env → String → String → Time → Action (Store F) PurchaseOrder
  receive_purchase_order env id by at = do
    po ← or_raise (← gets (λ s. lookup id s.purchase_orders_by_id)) not_found
    raise_if (str_eq po.status "received") invalid_transaction
    raise_if (str_eq po.status "cancelled") invalid_transaction
    let received_at = or_now env 0 at
    modify (ensure_store po.store_id)
    receive_items env received_at po 0 po.items
    let received = received_order by received_at po
    modify λ s. record s { purchase_orders_by_id = insert id received s.purchase_orders_by_id }
    pure received
