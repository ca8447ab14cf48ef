-- ===== src/Domain/Admin.antt =====
-- backend/internal/domain/models.go: accounts, the audit log, reports and alerts.
use kasirinaja.Prelude.{ℤ, String, Bool, List}
use kasirinaja.Domain.Clock.{Time}

pub record LoginRequest : Type 0 where
  pub username : String
  pub password : String

pub record LoginResponse : Type 0 where
  pub access_token : String
  pub role : String
  pub expires_at : String

pub record Actor : Type 0 where
  pub username : String
  pub role : String

pub record CashierCreateRequest : Type 0 where
  pub username : String
  pub password : String

pub record CashierUser : Type 0 where
  pub username : String
  pub role : String
  pub active : Bool
  pub created_at : Time

pub record UserAccount : Type 0 where
  pub username : String
  pub password : String
  pub role : String
  pub active : Bool
  pub created_at : Time

pub record AuditLog : Type 0 where
  pub id : String
  pub store_id : String
  pub actor_username : String
  pub actor_role : String
  pub action : String
  pub entity_type : String
  pub entity_id : String
  pub detail : String
  pub created_at : Time

pub record AttachMetrics (F : Type 0) : Type 0 where
  pub transactions : ℤ
  pub accepted : ℤ
  pub attach_rate : F

pub record DailyReportPayment : Type 0 where
  pub payment_method : String
  pub transactions : ℤ
  pub total_cents : ℤ

pub record DailyReportTerminal : Type 0 where
  pub terminal_id : String
  pub transactions : ℤ
  pub total_cents : ℤ

pub record DailyReport : Type 0 where
  pub store_id : String
  pub date : String
  pub transactions : ℤ
  pub gross_sales_cents : ℤ
  pub discount_cents : ℤ
  pub tax_cents : ℤ
  pub net_sales_cents : ℤ
  pub estimated_margin_cents : ℤ
  pub by_payment : List DailyReportPayment
  pub by_terminal : List DailyReportTerminal

pub record OperationalAlert (F : Type 0) : Type 0 where
  pub id : String
  pub code : String
  pub severity : String
  pub title : String
  pub description : String
  pub metric_value : F
  pub threshold : F
  pub created_at : String

pub record OperationalAlertResponse (F : Type 0) : Type 0 where
  pub store_id : String
  pub date : String
  pub alerts : List (OperationalAlert F)
