-- ===== src/Memory/Inventory.antt =====
-- `Store`: stock levels, inventory lots and product costs.
use kasirinaja.Prelude.{
  ℤ, pos, Bool, ◌||◌, not, String, List, [], ◌∷◌, ◌++◌, Dict, lookup, insert, insert_inner, values,
  get_or, is_some, str_eq, filter, ltb_ℤ, eqb_ℤ, add64, trim_space, if◌then◌else◌, map, pos_part,
  take, get_or,
}
use kasirinaja.Domain.{Env, or_new_id, or_now, InventoryLot, StockAdjustment}
use kasirinaja.Store.{
  not_found, invalid_transaction, Action, pure, gets, raise_if, modify, ◌>>=◌, ◌>>◌,
}
use kasirinaja.Memory.State.{Store, stock_of, lots_of, cost_of}
use kasirinaja.Memory.Checkout.{sku_unavailable, ensure_lots}
use kasirinaja.Memory.Lots.{now_date_utc, is_expired, sort_lots}
use Prim.Native.String.{◌++◌ as str_append}

-- `result[sku] = read(sku)` for each code
unfoldable pub read_all : (String → ℤ) → List String → Dict ℤ
read_all read [] = []
read_all read (sku ∷ skus) = insert sku (read sku) (read_all read skus)

unfoldable pub concat {ℓ} : {A : Type ℓ} → List (List A) → List A
concat [] = []
concat (xs ∷ xss) = xs ++ concat xss

-- The fields that `CreateInventoryLot` fills in.
unfoldable pub completed_lot : Env → InventoryLot → InventoryLot
completed_lot env request =
    let id = or_new_id env "lot" 0 request.id in
    record request {
      id = id;
      lot_code =
          if str_eq (trim_space request.lot_code) ""
          then str_append "MANUAL-" id
          else request.lot_code;
      qty_available =
          if eqb_ℤ request.qty_available (pos 0)
          then request.qty_received
          else request.qty_available;
      source_type = if str_eq request.source_type "" then "manual" else request.source_type;
      received_at = or_now env 0 request.received_at;
    }

module _ {F : Type 0} where
  unfoldable pub get_stock_map : String → List String → Action (Store F) (Dict ℤ)
  unfolding read_all
  get_stock_map store skus = gets (λ s. read_all (λ sku. stock_of store sku s) skus)

  unfoldable pub get_product_costs : String → List String → Action (Store F) (Dict ℤ)
  unfolding read_all
  get_product_costs store skus = gets (λ s. read_all (λ sku. cost_of store sku s) skus)

  unfoldable pub set_stock : String → String → ℤ → Action (Store F) (Unit {0})
  unfolding sku_unavailable
  set_stock store sku qty = do
    raise_if (str_eq sku "" || ltb_ℤ qty (pos 0)) invalid_transaction
    known ← gets (λ s. lookup sku s.products)
    raise_if (not (is_some known)) (sku_unavailable sku)
    modify λ s. record s { inventory = insert_inner store sku qty s.inventory }

  unfoldable pub upsert_product_cost : String → String → ℤ → Action (Store F) (Unit {0})
  upsert_product_cost store sku cost = do
    raise_if (str_eq sku "" || ltb_ℤ cost (pos 1)) invalid_transaction
    known ← gets (λ s. lookup sku s.products)
    raise_if (not (is_some known)) not_found
    modify λ s. record s { product_costs = insert_inner store sku cost s.product_costs }

  -- The loop stops at an unknown article, and keeps what it has added.
  unfoldable pub increase_each : String → List StockAdjustment → Action (Store F) (Unit {0})
  unfolding sku_unavailable
  increase_each store [] = pure tt
  increase_each store (adj ∷ adjs) =
      let rest = increase_each store adjs in
      if ltb_ℤ adj.qty (pos 1) then rest else do
        known ← gets (λ s. lookup adj.sku s.products)
        raise_if (not (is_some known)) (sku_unavailable adj.sku)
        modify λ s. record s {
          inventory =
              insert_inner store adj.sku (add64 (stock_of store adj.sku s) adj.qty) s.inventory;
        }
        rest

  unfoldable pub ensure_inventory : String → Store F → Store F
  ensure_inventory store s =
      if is_some (lookup store s.inventory)
      then s
      else record s { inventory = insert store [] s.inventory }

  unfoldable pub increase_stock : String → List StockAdjustment → Action (Store F) (Unit {0})
  unfolding increase_each ensure_inventory
  increase_stock store adjs = do modify (ensure_inventory store); increase_each store adjs

  unfoldable pub create_inventory_lot : Env → InventoryLot → Action (Store F) InventoryLot
  unfolding completed_lot ensure_inventory ensure_lots or_new_id or_now
  create_inventory_lot env request = do
    raise_if
        (str_eq request.store_id ""
          || str_eq request.sku ""
          || ltb_ℤ request.qty_received (pos 1)
          || ltb_ℤ request.cost_cents (pos 1))
        invalid_transaction
    raise_if
        (ltb_ℤ request.qty_available (pos 0) || ltb_ℤ request.qty_received request.qty_available)
        invalid_transaction
    let lot = completed_lot env request
    let store = lot.store_id
    known ← gets (λ s. lookup lot.sku s.products)
    raise_if (not (is_some known)) not_found
    modify (ensure_inventory store)
    modify (ensure_lots store)
    modify λ s. record s {
      inventory_lots =
          insert_inner store lot.sku (lots_of store lot.sku s ++ (lot ∷ [])) s.inventory_lots;
      inventory =
          insert_inner store lot.sku (add64 (stock_of store lot.sku s) lot.qty_available)
            s.inventory;
    }
    pure lot

  -- The lots of one article, of one store, or of all stores.
  unfoldable pub lots_in_scope : String → String → Store F → List InventoryLot
  unfolding concat
  lots_in_scope store sku s =
      if str_eq store ""
      then concat (map (λ by_sku. concat (values by_sku)) (values s.inventory_lots))
      else (if str_eq sku ""
          then concat (values (get_or (lookup store s.inventory_lots) []))
          else lots_of store sku s)

  unfoldable pub list_inventory_lots :
      Env → String → String → Bool → ℤ → Action (Store F) (List InventoryLot)
  unfolding lots_in_scope sort_lots is_expired now_date_utc
  list_inventory_lots env store sku include_expired limit =
      let bound = if ltb_ℤ limit (pos 1) then pos 200 else limit in
      let today = now_date_utc (env.now 0) in
      gets λ s. take (pos_part bound) (
        sort_lots (
          filter (λ lot. include_expired || not (is_expired today lot))
            (lots_in_scope store sku s)))
