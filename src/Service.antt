-- ===== src/Service.antt =====
-- backend/internal/service/service.go: the rules of the point of sale over the operations of the
-- store.
pub mod Context
pub mod Items
pub mod Promos
pub mod Payments
pub mod Checkout
pub mod Sales
pub mod Shifts
pub mod Opname
pub mod Returns
pub mod Carts
pub mod Admin
pub mod Texts
pub mod Products
pub mod Suggest
pub mod Reports
pub mod Lots
pub mod Reorder
pub mod Receipts
pub mod Alerts
