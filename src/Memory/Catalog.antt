-- ===== src/Memory/Catalog.antt =====
-- `Store`: products, price history, promos, recommendation events and the audit log.
use kasirinaja.Prelude.{
  ℤ, pos, Bool, true, false, ◌||◌, ◌&&◌, not, String, none, some, List, [], ◌∷◌, ◌++◌, Dict, lookup,
  insert, values, get_or, is_some, str_eq, str_lt, filter, ltb, leb, ◌==◌, ltb_ℤ, leb_ℤ, sort_by,
  trim_space, if◌then◌else◌, Float64,
}
use kasirinaja.Domain.{
  Time, Env, or_new_id, or_now, Product, ProductPriceHistory, PromoRule, AssociationPair,
  RecommendationEvent, AuditLog,
}
use kasirinaja.Store.{
  not_found, invalid_transaction, Action, pure, gets, or_raise, raise_if, modify, ◌>>=◌, ◌>>◌,
}
use kasirinaja.Memory.State.{Store}
use kasirinaja.Memory.Carts.{latest_first, limited}

unfoldable pub is_source : String → List String → Bool
is_source sku [] = false
is_source sku (k ∷ ks) = str_eq k sku || is_source sku ks

-- Of a store, or of all stores, from `from` on and before `until`.
unfoldable pub in_log : String → Time → Time → AuditLog → Bool
in_log store from until entry =
    (str_eq store "" || str_eq entry.store_id store)
    && leb from entry.created_at
    && ltb entry.created_at until

module _ {F : Type 0} where
  -- By category and then by name.
  unfoldable pub product_before : Product F → Product F → Bool
  product_before a b =
      if str_eq a.category b.category then str_lt a.name b.name else str_lt a.category b.category

  unfoldable pub list_products : Action (Store F) (List (Product F))
  unfolding product_before
  list_products = gets (λ s. sort_by product_before (filter (λ p. p.active) (values s.products)))

  unfoldable pub get_product_by_sku : String → Action (Store F) (Product F)
  get_product_by_sku sku = do or_raise (← gets (λ s. lookup sku s.products)) not_found

  -- The active products among the codes; a code that is listed twice is entered twice alike.
  unfoldable pub active_products : Dict (Product F) → List String → Dict (Product F)
  active_products products [] = []
  active_products products (sku ∷ skus) =
      let rest = active_products products skus in
      elim (lookup sku products) [
        | none ↦ rest
        | some p ↦ if p.active then insert sku p rest else rest
      ]

  unfoldable pub get_products_by_skus : List String → Action (Store F) (Dict (Product F))
  unfolding active_products
  get_products_by_skus skus = gets (λ s. active_products s.products skus)

  unfoldable pub create_price_history : Env → ProductPriceHistory → Action (Store F) (Unit {0})
  unfolding or_new_id or_now
  create_price_history env request = do
    let entry = record request {
      id = or_new_id env "ph" 0 request.id;
      changed_at = or_now env 0 request.changed_at;
    }
    modify λ s. record s {
      price_history_by_sku =
          insert entry.sku (get_or (lookup entry.sku s.price_history_by_sku) [] ++ (entry ∷ []))
            s.price_history_by_sku;
    }

  unfoldable pub list_price_history : String → ℤ → Action (Store F) (List ProductPriceHistory)
  unfolding latest_first limited
  list_price_history sku limit = gets λ s. limited limit (
      sort_by (λ a b. latest_first a.changed_at a.id b.changed_at b.id)
        (get_or (lookup sku s.price_history_by_sku) []))

  -- The earliest first, and of two at one time the smaller identifier first.
  unfoldable pub promo_before : PromoRule F → PromoRule F → Bool
  promo_before a b =
      if a.created_at == b.created_at then str_lt a.id b.id else ltb a.created_at b.created_at

  unfoldable pub list_promos : Action (Store F) (List (PromoRule F))
  unfolding promo_before
  list_promos = gets (λ s. sort_by promo_before (values s.promos_by_id))

  unfoldable pub update_promo_active : String → Bool → Action (Store F) (PromoRule F)
  update_promo_active id active = do
    promo ← or_raise (← gets (λ s. lookup id s.promos_by_id)) not_found
    let updated = record promo { active = active }
    modify λ s. record s { promos_by_id = insert id updated s.promos_by_id }
    pure updated

  unfoldable pub get_association_pairs : List String → Action (Store F) (List (AssociationPair F))
  unfolding is_source
  get_association_pairs skus =
      gets (λ s. filter (λ pair. is_source pair.source_sku skus) s.association_pairs)

  unfoldable pub create_recommendation_event : RecommendationEvent F → Action (Store F) (Unit {0})
  create_recommendation_event event =
      modify λ s. record s { recommendation_log = s.recommendation_log ++ (event ∷ []) }

  unfoldable pub create_audit_log : Env → AuditLog → Action (Store F) (Unit {0})
  unfolding or_new_id or_now
  create_audit_log env request = do
    let entry = record request {
      id = or_new_id env "audit" 0 request.id;
      created_at = or_now env 0 request.created_at;
    }
    modify λ s. record s { audit_logs = s.audit_logs ++ (entry ∷ []) }

  unfoldable pub list_audit_logs : String → Time → Time → ℤ → Action (Store F) (List AuditLog)
  unfolding latest_first limited in_log
  list_audit_logs store from until limit = gets λ s. limited limit (
      sort_by (λ a b. latest_first a.created_at a.id b.created_at b.id)
        (filter (in_log store from until) s.audit_logs))

module _ {F : Type 0} ⦃fl : Float64 F⦄ where
  open fl use {of_int, lt, le}

  -- What `CreateProduct` and `UpdateProduct` refuse.
  unfoldable pub is_bad_product : Product F → Bool
  is_bad_product p =
      str_eq p.sku ""
      || str_eq p.name ""
      || str_eq p.category ""
      || ltb_ℤ p.price_cents (pos 1)
      || lt p.margin_rate (of_int (pos 0))
      || lt (of_int (pos 1)) p.margin_rate

  unfoldable pub create_product : Product F → Action (Store F) (Product F)
  unfolding is_bad_product
  create_product request = do
    raise_if (is_bad_product request) invalid_transaction
    known ← gets (λ s. lookup request.sku s.products)
    raise_if (is_some known) invalid_transaction
    let product = record request { active = true }
    modify λ s. record s { products = insert product.sku product s.products }
    pure product

  unfoldable pub update_product : Product F → Action (Store F) (Product F)
  unfolding is_bad_product
  update_product product = do
    raise_if (is_bad_product product) invalid_transaction
    known ← gets (λ s. lookup product.sku s.products)
    raise_if (not (is_some known)) not_found
    modify λ s. record s { products = insert product.sku product s.products }
    pure product

  unfoldable pub create_promo : Env → PromoRule F → Action (Store F) (PromoRule F)
  unfolding or_new_id or_now
  create_promo env request = do
    let percent = str_eq request.type "cart_percent"
    let flat = str_eq request.type "flat_cart"
    raise_if (str_eq (trim_space request.name) "") invalid_transaction
    raise_if (not percent && not flat) invalid_transaction
    raise_if (percent && le request.discount_percent (of_int (pos 0))) invalid_transaction
    raise_if (flat && leb_ℤ request.flat_discount_cents (pos 0)) invalid_transaction
    let promo = record request {
      id = or_new_id env "promo" 0 request.id;
      created_at = or_now env 0 request.created_at;
      active = true;
    }
    modify λ s. record s { promos_by_id = insert promo.id promo s.promos_by_id }
    pure promo
