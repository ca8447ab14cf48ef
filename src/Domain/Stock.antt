-- ===== src/Domain/Stock.antt =====
-- backend/internal/domain/models.go: stock, lots, suppliers and purchase orders.
use kasirinaja.Prelude.{ℤ, String, Option, List}
use kasirinaja.Domain.Clock.{Time}

pub record Supplier : Type 0 where
  pub id : String
  pub name : String
  pub phone : String
  pub created_at : Time

pub record SupplierCreateRequest : Type 0 where
  pub name : String
  pub phone : String

pub record PurchaseOrderItem : Type 0 where
  pub sku : String
  pub qty : ℤ
  pub cost_cents : ℤ

pub record StockAdjustment : Type 0 where
  pub sku : String
  pub qty : ℤ

pub record InventoryLot : Type 0 where
  pub id : String
  pub store_id : String
  pub sku : String
  pub lot_code : String
  pub expiry_date : Option Time
  pub qty_received : ℤ
  pub qty_available : ℤ
  pub cost_cents : ℤ
  pub source_type : String
  pub source_id : String
  pub notes : String
  pub received_at : Time

pub record InventoryLotReceiveRequest : Type 0 where
  pub store_id : String
  pub sku : String
  pub lot_code : String
  pub expiry_date : String
  pub qty : ℤ
  pub cost_cents : ℤ
  pub notes : String

pub record InventoryLotListResponse : Type 0 where
  pub lots : List InventoryLot

pub record StockOpnameItem : Type 0 where
  pub sku : String
  pub counted_qty : ℤ

pub record StockOpnameRequest : Type 0 where
  pub store_id : String
  pub notes : String
  pub items : List StockOpnameItem

pub record StockOpnameAdjustment : Type 0 where
  pub sku : String
  pub system_qty : ℤ
  pub counted_qty : ℤ
  pub delta_qty : ℤ

pub record StockOpnameResponse : Type 0 where
  pub opname_id : String
  pub store_id : String
  pub notes : String
  pub adjustments : List StockOpnameAdjustment
  pub created_at : String

pub record PurchaseOrder : Type 0 where
  pub id : String
  pub store_id : String
  pub supplier_id : String
  pub status : String
  pub created_at : Time
  pub received_at : Option Time
  pub received_by : String
  pub items : List PurchaseOrderItem

pub record PurchaseOrderCreateRequest : Type 0 where
  pub store_id : String
  pub supplier_id : String
  pub items : List PurchaseOrderItem

pub record PurchaseOrderReceiveRequest : Type 0 where
  pub received_by : String

pub record PurchaseOrderResponse : Type 0 where
  pub purchase_order : PurchaseOrder

pub record PurchaseOrderListResponse : Type 0 where
  pub purchase_orders : List PurchaseOrder

pub record ReorderSuggestion : Type 0 where
  pub sku : String
  pub name : String
  pub category : String
  pub current_stock : ℤ
  pub reorder_point : ℤ
  pub recommended_qty : ℤ
  pub last_cost_cents : ℤ
  pub estimated_purchase_cents : ℤ

pub record ReorderSuggestionResponse : Type 0 where
  pub store_id : String
  pub generated_at : String
  pub suggestions : List ReorderSuggestion
