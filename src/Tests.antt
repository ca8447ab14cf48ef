-- ===== src/Tests.antt =====
-- The properties at concrete inputs.
pub mod Fixed
pub mod Shop
pub mod Checkout
pub mod Voids
pub mod Floor
pub mod Goods
pub mod Till
pub mod Offline
pub mod Counter
pub mod Door
pub mod Books
pub mod Security
pub mod Access
pub mod Shelf
pub mod Prices
pub mod Desk
