-- ===== src/Memory.antt =====
-- backend/internal/store/memory/memory.go: the repository in memory.
pub mod State
pub mod Lots
pub mod Checkout
pub mod Sales
pub mod Shifts
pub mod Refunds
pub mod Ledger
pub mod Reports
pub mod Returns
pub mod Carts
pub mod Procurement
pub mod Receiving
pub mod Catalog
pub mod Inventory
pub mod Users
