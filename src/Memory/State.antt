-- ===== src/Memory/State.antt =====
-- The fields of `memory.Store`. Transactions live on a heap, since the maps by identifier and by
-- idempotency key hold pointers to the same transaction.
use kasirinaja.Prelude.{ℕ, ℤ, pos, String, List, [], Dict, lookup_inner, get_or}
use kasirinaja.Domain.{
  Product, AssociationPair, Transaction, Refund, ItemReturn, ProductPriceHistory, AuditLog,
  RecommendationEvent, Shift, PromoRule, HeldCart, Supplier, PurchaseOrder, UserAccount,
  InventoryLot,
}

pub record Store (F : Type 0) : Type 0 where
  pub products : Dict (Product F)
  pub inventory : Dict (Dict ℤ)
  pub inventory_lots : Dict (Dict (List InventoryLot))
  pub association_pairs : List (AssociationPair F)
  pub heap : List (Transaction F)
  pub transactions_by_id : Dict ℕ
  pub transactions_by_idem : Dict ℕ
  pub refunds_by_id : Dict Refund
  pub item_returns_by_id : Dict ItemReturn
  pub price_history_by_sku : Dict (List ProductPriceHistory)
  pub audit_logs : List AuditLog
  pub recommendation_log : List (RecommendationEvent F)
  pub shifts_by_id : Dict Shift
  pub active_shift_by_key : Dict String
  pub promos_by_id : Dict (PromoRule F)
  pub held_carts_by_id : Dict (HeldCart F)
  pub suppliers_by_id : Dict Supplier
  pub purchase_orders_by_id : Dict PurchaseOrder
  pub product_costs : Dict (Dict ℤ)
  pub users_by_username : Dict UserAccount

-- Reads of a map of maps: a missing entry, and a nil inner map, read as the zero value.
module _ {F : Type 0} where
  -- `s.inventory[storeID][sku]`
  unfoldable pub stock_of : String → String → Store F → ℤ
  stock_of store sku s = get_or (lookup_inner store sku s.inventory) (pos 0)

  -- `s.inventoryLots[storeID][sku]`
  unfoldable pub lots_of : String → String → Store F → List InventoryLot
  lots_of store sku s = get_or (lookup_inner store sku s.inventory_lots) []

  -- `s.productCosts[storeID][sku]`
  unfoldable pub cost_of : String → String → Store F → ℤ
  cost_of store sku s = get_or (lookup_inner store sku s.product_costs) (pos 0)
