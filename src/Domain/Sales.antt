-- ===== src/Domain/Sales.antt =====
-- backend/internal/domain/models.go: checkout, transactions and refunds.
use kasirinaja.Prelude.{ℤ, String, Bool, Option, List}
use kasirinaja.Domain.Clock.{Time}
use kasirinaja.Domain.Catalog.{CartItem}

pub record PaymentSplit : Type 0 where
  pub method : String
  pub amount_cents : ℤ
  pub reference : String

pub record CheckoutRecommendationInfo (F : Type 0) : Type 0 where
  pub shown : Bool
  pub accepted : Bool
  pub sku : String
  pub reason_code : String
  pub confidence : F

pub record CheckoutRequest (F : Type 0) : Type 0 where
  pub store_id : String
  pub terminal_id : String
  pub idempotency_key : String
  pub payment_method : String
  pub payment_reference : String
  pub payment_splits : List PaymentSplit
  pub cash_received_cents : ℤ
  pub discount_cents : ℤ
  pub tax_rate_percent : F
  pub manual_override : Bool
  pub cart_items : List CartItem
  pub recommendation_info : CheckoutRecommendationInfo F

pub record CheckoutResponse : Type 0 where
  pub transaction_id : String
  pub status : String
  pub payment_method : String
  pub payment_splits : List PaymentSplit
  pub subtotal_cents : ℤ
  pub discount_cents : ℤ
  pub tax_cents : ℤ
  pub total_cents : ℤ
  pub cash_received : ℤ
  pub change_cents : ℤ
  pub item_count : ℤ
  pub shift_id : String
  pub recommendation : Option String
  pub duplicate : Bool
  pub created_at : String

pub record CheckoutLookupResponse : Type 0 where
  pub found : Bool
  pub checkout : Option CheckoutResponse

pub record OfflineTransaction (F : Type 0) : Type 0 where
  pub client_transaction_id : String
  pub checkout : CheckoutRequest F

pub record OfflineSyncRequest (F : Type 0) : Type 0 where
  pub store_id : String
  pub terminal_id : String
  pub envelope_id : String
  pub transactions : List (OfflineTransaction F)

pub record OfflineSyncStatus : Type 0 where
  pub client_transaction_id : String
  pub status : String
  pub reason : String
  pub transaction_id : String

pub record OfflineSyncResponse : Type 0 where
  pub envelope_id : String
  pub statuses : List OfflineSyncStatus

pub record TransactionLine (F : Type 0) : Type 0 where
  pub sku : String
  pub qty : ℤ
  pub unit_price_cents : ℤ
  pub margin_rate : F

pub record Transaction (F : Type 0) : Type 0 where
  pub id : String
  pub store_id : String
  pub terminal_id : String
  pub shift_id : String
  pub idempotency_key : String
  pub payment_method : String
  pub payment_reference : String
  pub payment_splits : List PaymentSplit
  pub subtotal_cents : ℤ
  pub discount_cents : ℤ
  pub tax_rate_percent : F
  pub tax_cents : ℤ
  pub total_cents : ℤ
  pub cash_received_cents : ℤ
  pub change_cents : ℤ
  pub status : String
  pub void_reason : String
  pub voided_at : Option Time
  pub recommendation_shown : Bool
  pub recommendation_accepted : Bool
  pub recommendation_sku : String
  pub created_at : Time
  pub items : List (TransactionLine F)

pub record VoidTransactionRequest : Type 0 where
  pub transaction_id : String
  pub reason : String
  pub manager_pin : String

pub record VoidTransactionResponse : Type 0 where
  pub transaction_id : String
  pub status : String
  pub voided_at : String

pub record RefundRequest : Type 0 where
  pub original_transaction_id : String
  pub reason : String
  pub amount_cents : ℤ
  pub manager_pin : String

pub record Refund : Type 0 where
  pub id : String
  pub original_transaction_id : String
  pub reason : String
  pub amount_cents : ℤ
  pub status : String
  pub created_at : Time

pub record RefundResponse : Type 0 where
  pub refund : Refund
