-- ===== src/Domain/Floor.antt =====
-- backend/internal/domain/models.go: shifts, held carts, item returns and the terminal hardware.
use kasirinaja.Prelude.{ℤ, String, Bool, Option, List}
use kasirinaja.Domain.Clock.{Time}
use kasirinaja.Domain.Catalog.{CartItem}
use kasirinaja.Domain.Sales.{PaymentSplit}

pub record Shift : Type 0 where
  pub id : String
  pub store_id : String
  pub terminal_id : String
  pub cashier_name : String
  pub opening_float_cents : ℤ
  pub closing_cash_cents : ℤ
  pub status : String
  pub opened_at : Time
  pub closed_at : Option Time

pub record ShiftOpenRequest : Type 0 where
  pub store_id : String
  pub terminal_id : String
  pub cashier_name : String
  pub opening_float_cents : ℤ

pub record ShiftCloseRequest : Type 0 where
  pub store_id : String
  pub terminal_id : String
  pub closing_cash_cents : ℤ
  pub notes : String

pub record ShiftResponse : Type 0 where
  pub shift : Shift

pub record HoldCartRequest (F : Type 0) : Type 0 where
  pub store_id : String
  pub terminal_id : String
  pub note : String
  pub cart_items : List CartItem
  pub discount_cents : ℤ
  pub tax_rate_percent : F
  pub payment_method : String
  pub payment_reference : String
  pub payment_splits : List PaymentSplit
  pub cash_received_cents : ℤ
  pub manual_override : Bool

pub record HeldCart (F : Type 0) : Type 0 where
  pub id : String
  pub store_id : String
  pub terminal_id : String
  pub cashier_username : String
  pub note : String
  pub cart_items : List CartItem
  pub discount_cents : ℤ
  pub tax_rate_percent : F
  pub payment_method : String
  pub payment_reference : String
  pub payment_splits : List PaymentSplit
  pub cash_received_cents : ℤ
  pub manual_override : Bool
  pub held_at : Time

pub record HoldCartResponse (F : Type 0) : Type 0 where
  pub held_cart : HeldCart F

pub record HeldCartListResponse (F : Type 0) : Type 0 where
  pub items : List (HeldCart F)

pub record ItemReturnLine : Type 0 where
  pub sku : String
  pub qty : ℤ
  pub unit_price_cents : ℤ

pub record ItemReturnRequest : Type 0 where
  pub original_transaction_id : String
  pub mode : String
  pub reason : String
  pub manager_pin : String
  pub store_id : String
  pub terminal_id : String
  pub payment_method : String
  pub payment_reference : String
  pub cash_received_cents : ℤ
  pub return_items : List ItemReturnLine
  pub exchange_items : List CartItem

pub record ItemReturn : Type 0 where
  pub id : String
  pub store_id : String
  pub original_transaction_id : String
  pub mode : String
  pub reason : String
  pub refund_amount_cents : ℤ
  pub exchange_transaction_id : String
  pub additional_payment_cents : ℤ
  pub processed_by : String
  pub created_at : Time
  pub return_items : List ItemReturnLine
  pub exchange_items : List ItemReturnLine

pub record ItemReturnResponse : Type 0 where
  pub item_return : ItemReturn

pub record HardwareReceiptRequest : Type 0 where
  pub transaction_id : String

pub record HardwareReceiptResponse : Type 0 where
  pub transaction_id : String
  pub escpos_base64 : String
  pub preview_text : String
  pub file_name : String

pub record CashDrawerOpenRequest : Type 0 where
  pub terminal_id : String

pub record CashDrawerOpenResponse : Type 0 where
  pub terminal_id : String
  pub command_base64 : String
  pub note : String
