-- ===== src/Http/Handlers/Office.antt =====
-- The handlers of products, promos, suppliers, purchase orders and lots. `query` is
-- `r.URL.Query().Get` and `atoi` is `strconv.Atoi`.
use kasirinaja.Prelude.{
  ℤ, pos, not, ◌&&◌, ◌||◌, String, Option, none, some, List, str_eq, ltb_ℤ, trim_space, to_lower,
  trim_prefix, trim_suffix, has_prefix, has_suffix, if◌then◌else◌, Float64,
}
use kasirinaja.Domain.{
  Env, Product, ProductCreateRequest, ProductUpdateRequest, ProductPriceHistory, PromoRule,
  PromoCreateRequest, PromoToggleRequest, Supplier, SupplierCreateRequest,
  PurchaseOrderCreateRequest, PurchaseOrderReceiveRequest, PurchaseOrderResponse,
  PurchaseOrderListResponse, InventoryLot, InventoryLotReceiveRequest, InventoryLotListResponse,
}
use kasirinaja.Store.{message, Result, ok, err}
use kasirinaja.Memory.Catalog.{list_products, list_promos}
use kasirinaja.Memory.Procurement.{list_suppliers, list_purchase_orders}
use kasirinaja.Service.Context.{Context, is_admin}
use kasirinaja.Service.Texts.{Texts}
use kasirinaja.Service.Products.{create_product, update_product, list_product_price_history}
use kasirinaja.Service.Admin.{
  set_promo_active, create_supplier, create_purchase_order, create_promo, receive_purchase_order,
}
use kasirinaja.Service.Lots.{receive_inventory_lot, list_inventory_lots}
use kasirinaja.Http.Csrf.{Request}
use kasirinaja.Http.Handlers.{
  Api, Reply, write_error, method_not_allowed, serve_as, create_call, get_call, replies,
  found_status, valid_status, admin_status, refund_status, void_status, trim_slashes,
}

unfoldable pub parse_positive_limit : (String → Option ℤ) → String → ℤ → ℤ → ℤ
parse_positive_limit atoi raw fallback max =
    let trimmed = trim_space raw in
    let limit = if str_eq trimmed "" then fallback else elim (atoi trimmed) [
      | none ↦ fallback
      | some parsed ↦ if ltb_ℤ (pos 0) parsed then parsed else fallback
    ] in
    if ltb_ℤ (pos 0) max && ltb_ℤ max limit then max else limit

-- The identifier in a path, between a prefix and an action.
unfoldable pub action_path : String → String → String → String → String → Result String
unfolding trim_slashes
action_path pref action invalid missing path =
    if not (has_prefix path pref) || not (has_suffix path action)
    then err (message invalid)
    else let id = trim_space (trim_slashes (trim_suffix (trim_prefix path pref) action)) in
      if str_eq id "" then err (message missing) else ok id

-- What the answers carry: a list, or one of its elements.
pub data Listed (L A : Type 0) : Type 0 where
  all : L → Listed L A
  one : A → Listed L A

module _ {F : Type 0} ⦃fl : Float64 F⦄ (ctx : Context) (texts : Texts F) (env : Env) (r : Request)
    (query : String → String) (atoi : String → Option ℤ) where
  unfoldable pub handle_products :
      Result (ProductCreateRequest F)
      → Api F
      → Reply (Listed (List (Product F)) (Product F)) × Api F
  unfolding get_call create_call write_error admin_status valid_status replies
  handle_products body a =
      if str_eq r.method "GET"
      then get_call r (λ e. 500) (replies all list_products) a
      else if str_eq r.method "POST" && not (is_admin ctx)
      then (write_error 403 (message "forbidden role"), a)
      else create_call r 201 (admin_status valid_status)
          (λ request. replies one (create_product ctx env request)) body a

  unfoldable pub handle_product_actions :
      Result (ProductUpdateRequest F)
      → Api F
      → Reply (Listed (List ProductPriceHistory) (Product F)) × Api F
  unfolding write_error serve_as replies valid_status refund_status admin_status trim_slashes
      parse_positive_limit
  handle_product_actions body a =
      let tail = trim_space (trim_slashes (trim_prefix r.path "/api/v1/products/")) in
      let sku = trim_slashes (trim_space (trim_suffix tail "/price-history")) in
      if not (has_prefix r.path "/api/v1/products/")
      then (write_error 400 (message "invalid product action path"), a)
      else if str_eq tail ""
      then (write_error 400 (message "product sku required"), a)
      else if has_suffix tail "/price-history"
      then (if not (str_eq r.method "GET")
          then (method_not_allowed, a)
          else if str_eq sku ""
          then (write_error 400 (message "product sku required"), a)
          else serve_as 200 valid_status
              (replies all (
                list_product_price_history sku
                  (parse_positive_limit atoi (query "limit") (pos 50) (pos 200))))
              a)
      else if not (str_eq r.method "PATCH")
      then (method_not_allowed, a)
      else elim body [
        | err e ↦ (write_error 400 e, a)
        | ok request ↦
            serve_as 200 (admin_status refund_status)
              (replies one (update_product ctx texts env tail request)) a
      ]

  unfoldable pub handle_promos :
      Result (PromoCreateRequest F)
      → Api F
      → Reply (Listed (List (PromoRule F)) (PromoRule F)) × Api F
  unfolding get_call create_call admin_status valid_status replies
  handle_promos body a =
      if str_eq r.method "GET"
      then get_call r (λ e. 422) (replies all list_promos) a
      else create_call r 201 (admin_status valid_status)
          (λ request. replies one (create_promo ctx env request)) body a

  unfoldable pub handle_promo_actions :
      Result PromoToggleRequest → Api F → Reply (PromoRule F) × Api F
  unfolding write_error serve_as admin_status found_status action_path
  handle_promo_actions body a =
      if not (str_eq r.method "POST")
      then (method_not_allowed, a)
      else elim (action_path "/api/v1/promos/" "/toggle" "invalid promo action path"
          "promo id required" r.path) [
            | err e ↦ (write_error 400 e, a)
            | ok id ↦ elim body [
              | err e ↦ (write_error 400 e, a)
              | ok request ↦
                  serve_as 200 (admin_status found_status)
                    (set_promo_active ctx env id request.active) a
            ]
          ]

  unfoldable pub handle_suppliers :
      Result SupplierCreateRequest → Api F → Reply (Listed (List Supplier) Supplier) × Api F
  unfolding get_call create_call admin_status valid_status replies
  handle_suppliers body a =
      if str_eq r.method "GET"
      then get_call r (λ e. 422) (replies all list_suppliers) a
      else create_call r 200 (admin_status valid_status)
          (λ request. replies one (create_supplier ctx env request)) body a

  -- with `ListPurchaseOrders` of the service
  unfoldable pub handle_purchase_orders :
      Result PurchaseOrderCreateRequest
      → Api F
      → Reply (Listed PurchaseOrderListResponse PurchaseOrderResponse) × Api F
  unfolding get_call create_call refund_status replies
  handle_purchase_orders body a =
      if str_eq r.method "GET"
      then get_call r (λ e. 422)
          (replies (λ orders. all (record { purchase_orders = orders }))
            (list_purchase_orders ctx.default_store_id (to_lower (trim_space (query "status")))
              (pos 200)))
          a
      else create_call r 200 refund_status
          (λ request. replies one (create_purchase_order ctx env request)) body a

  unfoldable pub handle_purchase_order_actions :
      Result PurchaseOrderReceiveRequest → Api F → Reply PurchaseOrderResponse × Api F
  unfolding write_error serve_as void_status action_path
  handle_purchase_order_actions body a =
      if not (str_eq r.method "POST")
      then (method_not_allowed, a)
      else elim (action_path "/api/v1/purchase-orders/" "/receive"
          "invalid purchase order action path" "purchase order id required" r.path) [
            | err e ↦ (write_error 400 e, a)
            | ok id ↦ elim body [
              | err e ↦ (write_error 400 e, a)
              | ok request ↦ serve_as 200 void_status (receive_purchase_order ctx env id request) a
            ]
          ]

  unfoldable pub handle_inventory_lots :
      Result InventoryLotReceiveRequest
      → Api F
      → Reply (Listed InventoryLotListResponse InventoryLot) × Api F
  unfolding get_call create_call admin_status valid_status replies parse_positive_limit
  handle_inventory_lots body a =
      if str_eq r.method "GET"
      then get_call r valid_status
          (replies all (
            list_inventory_lots ctx env (trim_space (query "store_id")) (trim_space (query "sku"))
              (str_eq (to_lower (trim_space (query "include_expired"))) "true")
              (parse_positive_limit atoi (query "limit") (pos 200) (pos 500))))
          a
      else create_call r 201 (admin_status valid_status)
          (λ request. replies one (receive_inventory_lot ctx texts env request)) body a
