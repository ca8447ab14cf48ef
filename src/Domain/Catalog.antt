-- ===== src/Domain/Catalog.antt =====
-- backend/internal/domain/models.go: the catalogue, promos and recommendations.
use kasirinaja.Prelude.{ℤ, String, Bool, Option, List}
use kasirinaja.Domain.Clock.{Time}

pub record Product (F : Type 0) : Type 0 where
  pub sku : String
  pub name : String
  pub category : String
  pub price_cents : ℤ
  pub margin_rate : F
  pub active : Bool

pub record ProductCreateRequest (F : Type 0) : Type 0 where
  pub store_id : String
  pub sku : String
  pub name : String
  pub category : String
  pub price_cents : ℤ
  pub margin_rate : F
  pub initial_stock : ℤ

pub record ProductUpdateRequest (F : Type 0) : Type 0 where
  pub name : Option String
  pub category : Option String
  pub price_cents : Option ℤ
  pub margin_rate : Option F
  pub active : Option Bool

pub record ProductPriceHistory : Type 0 where
  pub id : String
  pub sku : String
  pub old_price_cents : ℤ
  pub new_price_cents : ℤ
  pub changed_by : String
  pub changed_at : Time

pub record CartItem : Type 0 where
  pub sku : String
  pub qty : ℤ

pub record PromoRule (F : Type 0) : Type 0 where
  pub id : String
  pub name : String
  pub type : String
  pub min_subtotal_cents : ℤ
  pub discount_percent : F
  pub flat_discount_cents : ℤ
  pub active : Bool
  pub created_at : Time

pub record PromoCreateRequest (F : Type 0) : Type 0 where
  pub name : String
  pub type : String
  pub min_subtotal_cents : ℤ
  pub discount_percent : F
  pub flat_discount_cents : ℤ

pub record PromoToggleRequest : Type 0 where
  pub active : Bool

pub record AssociationPair (F : Type 0) : Type 0 where
  pub source_sku : String
  pub target_sku : String
  pub affinity : F

pub record RecommendationRequest (F : Type 0) : Type 0 where
  pub store_id : String
  pub terminal_id : String
  pub timestamp : Option Time
  pub queue_speed_hint : F
  pub prompt_count : ℤ
  pub cart_items : List CartItem

pub record Recommendation (F : Type 0) : Type 0 where
  pub sku : String
  pub name : String
  pub price_cents : ℤ
  pub expected_margin_lift_cents : ℤ
  pub reason_code : String
  pub confidence : F

pub record UiPolicy : Type 0 where
  pub show : Bool
  pub cooldown_seconds : ℤ

pub record RecommendationResponse (F : Type 0) : Type 0 where
  pub recommendation : Option (Recommendation F)
  pub ui_policy : UiPolicy
  pub latency_ms : ℤ

pub record RecommendationEvent (F : Type 0) : Type 0 where
  pub store_id : String
  pub terminal_id : String
  pub transaction_id : String
  pub sku : String
  pub action : String
  pub reason_code : String
  pub confidence : F
  pub latency_ms : ℤ
  pub created_at : Time

pub record RetrainRequest : Type 0 where
  pub store_id : String

pub record RetrainResponse : Type 0 where
  pub updated_pairs : ℤ
  pub updated_at : String
