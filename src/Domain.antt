-- ===== src/Domain.antt =====
-- backend/internal/domain: the data types, one module for each area, and the status constants.
pub mod Clock
mod Catalog
mod Sales
mod Floor
mod Stock
mod Admin
unfoldable pub use Clock.*
unfoldable pub use Catalog.*
unfoldable pub use Sales.*
unfoldable pub use Floor.*
unfoldable pub use Stock.*
unfoldable pub use Admin.*
use kasirinaja.Prelude.{String}

abbrev pub tx_status_paid : String
tx_status_paid = "paid"

abbrev pub tx_status_voided : String
tx_status_voided = "voided"

abbrev pub tx_status_refunded : String
tx_status_refunded = "refunded"

abbrev pub shift_status_open : String
shift_status_open = "open"

abbrev pub shift_status_closed : String
shift_status_closed = "closed"
