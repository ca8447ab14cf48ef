-- ===== src/Service/Admin.antt =====
-- What only an administrator does: promos, suppliers and purchase orders.
use kasirinaja.Prelude.{
  ◌+◌, pos, ◌||◌, ◌&&◌, not, Bool, true, String, none, List, [], ◌∷◌, str_eq, ltb_ℤ, leb_ℤ,
  trim_space, to_upper, length, show_nat, if◌then◌else◌, Float64,
}
use kasirinaja.Domain.{
  Env, PromoRule, PromoCreateRequest, Supplier, SupplierCreateRequest, PurchaseOrderItem,
  PurchaseOrderCreateRequest, PurchaseOrderReceiveRequest, PurchaseOrderResponse,
}
use kasirinaja.Store.{
  invalid_transaction, message, Action, Result, ok, err, pure, lift, raise_if, bind, ◌>>=◌, ◌>>◌,
}
use kasirinaja.Memory.State.{Store}
use kasirinaja.Memory.Checkout.{is_empty}
use kasirinaja.Memory.Catalog.{create_promo as store_create_promo, update_promo_active}
use kasirinaja.Memory.Procurement.{
  create_supplier as store_create_supplier, create_purchase_order as store_create_purchase_order,
  get_purchase_order_by_id,
}
use kasirinaja.Memory.Receiving.{receive_purchase_order as store_receive_purchase_order}
use kasirinaja.Service.Context.{Context, later, is_admin, or_default_store, actor_name, log_audit}
use kasirinaja.Service.Checkout.{show_bool}
use Prim.Native.String.{◌++◌ as str_append}

-- Every item with its code trimmed and in upper case.
unfoldable pub normalize_order_items : List PurchaseOrderItem → Result (List PurchaseOrderItem)
normalize_order_items [] = ok []
normalize_order_items (item ∷ items) =
    let sku = to_upper (trim_space item.sku) in
    let rest = normalize_order_items items in
    if str_eq sku "" || ltb_ℤ item.qty (pos 1) || ltb_ℤ item.cost_cents (pos 1)
    then err invalid_transaction
    else (bind rest λ rest. ok (record item { sku = sku } ∷ rest))

module _ {F : Type 0} where
  unfoldable pub set_promo_active : Context → Env → String → Bool → Action (Store F) (PromoRule F)
  unfolding show_bool
  set_promo_active ctx env id active = do
    raise_if (not (is_admin ctx)) (message "admin role required")
    rule ← update_promo_active id active
    log_audit ctx env ctx.default_store_id "promo_toggle" "promo" id
        (str_append "active=" (show_bool active))
    pure rule

  unfoldable pub create_supplier : Context → Env → SupplierCreateRequest → Action (Store F) Supplier
  create_supplier ctx env request = do
    raise_if (not (is_admin ctx)) (message "admin role required")
    let name = trim_space request.name
    raise_if (str_eq name "") invalid_transaction
    saved ← store_create_supplier (later 1 env) (record {
      id = env.new_id "sup" 0;
      name = name;
      phone = trim_space request.phone;
      created_at = env.now 0;
    })
    log_audit ctx (later 1 env) ctx.default_store_id "supplier_create" "supplier" saved.id
        (str_append "name=" saved.name)
    pure saved

  unfoldable pub create_purchase_order :
      Context → Env → PurchaseOrderCreateRequest → Action (Store F) PurchaseOrderResponse
  create_purchase_order ctx env request = do
    raise_if (not (is_admin ctx)) (message "admin role required")
    let store = or_default_store ctx request.store_id
    raise_if (str_eq request.supplier_id "" || is_empty request.items) invalid_transaction
    items ← lift (normalize_order_items request.items)
    saved ← store_create_purchase_order (later 1 env) (record {
      id = env.new_id "po" 0;
      store_id = store;
      supplier_id = request.supplier_id;
      status = "draft";
      created_at = env.now 0;
      received_at = none;
      received_by = "";
      items = items;
    })
    log_audit ctx (later 1 env) store "purchase_order_create" "purchase_order" saved.id
        (str_append "items=" (show_nat (length saved.items)))
    pure (record { purchase_order = saved })

module _ {F : Type 0} ⦃fl : Float64 F⦄ where
  open fl use {of_int, lt, le}

  -- What `CreatePromo` refuses.
  unfoldable pub is_bad_promo : PromoCreateRequest F → Bool
  is_bad_promo request =
      let type = trim_space request.type in
      let percent = str_eq type "cart_percent" in
      let flat = str_eq type "flat_cart" in
      str_eq (trim_space request.name) ""
      || ltb_ℤ request.min_subtotal_cents (pos 0)
      || lt request.discount_percent (of_int (pos 0))
      || lt (of_int (pos 100)) request.discount_percent
      || ltb_ℤ request.flat_discount_cents (pos 0)
      || (not percent && not flat)
      || (percent && le request.discount_percent (of_int (pos 0)))
      || (flat && leb_ℤ request.flat_discount_cents (pos 0))

  unfoldable pub create_promo :
      Context → Env → PromoCreateRequest F → Action (Store F) (PromoRule F)
  create_promo ctx env request = do
    raise_if (not (is_admin ctx)) (message "admin role required")
    raise_if (is_bad_promo request) invalid_transaction
    saved ← store_create_promo (later 1 env) (record {
      id = env.new_id "promo" 0;
      name = trim_space request.name;
      type = trim_space request.type;
      min_subtotal_cents = request.min_subtotal_cents;
      discount_percent = request.discount_percent;
      flat_discount_cents = request.flat_discount_cents;
      active = true;
      created_at = env.now 0;
    })
    log_audit ctx (later 1 env) ctx.default_store_id "promo_create" "promo" saved.id
        (str_append "type=" (str_append saved.type (str_append ",name=" saved.name)))
    pure saved

  unfoldable pub receive_purchase_order :
      Context → Env → String → PurchaseOrderReceiveRequest → Action (Store F) PurchaseOrderResponse
  receive_purchase_order ctx env id request = do
    raise_if (not (is_admin ctx)) (message "admin role required")
    raise_if (str_eq id "") invalid_transaction
    let named = trim_space request.received_by
    let by = if str_eq named "" then actor_name ctx else named
    po ← get_purchase_order_by_id id
    raise_if (str_eq po.status "received") invalid_transaction
    received ← store_receive_purchase_order (later 1 env) id by (env.now 0)
    log_audit ctx (later (2 + length po.items) env) received.store_id "purchase_order_receive"
        "purchase_order" received.id (str_append "received_by=" by)
    pure (record { purchase_order = received })
