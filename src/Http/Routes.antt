-- ===== src/Http/Routes.antt =====
-- backend/internal/httpapi/httpapi.go: which handler a request comes to, and with which user.
pub mod Roles
use kasirinaja.Prelude.{
  ℕ, ◌≡◌, Bool, true, false, not, ◌||◌, ◌&&◌, String, Option, none, some, List, [], ◌∷◌, str_eq,
  has_prefix, has_suffix, contains, trim_space, to_lower, ltb, if◌then◌else◌,
}
use Prim.Native.String.{◌++◌ as ◌++ˢ◌, slice, len}
use kasirinaja.Domain.{Time, Env, Actor}
use kasirinaja.Store.{Result, ok, err, Error}
use kasirinaja.Http.Auth.Outside.{Jwt}
use kasirinaja.Http.Auth.{AuthManager, parse_token}
use kasirinaja.Http.Csrf.{Request, HexHmac, is_one_of, check_csrf}

-- The handlers, by the names of the code.
pub data Handler : Type 0 where
  handle_health handle_login handle_csrf_token : Handler
  handle_products handle_product_actions handle_recommendation handle_checkout : Handler
  handle_checkout_lookup handle_held_carts handle_held_cart_actions handle_offline_sync : Handler
  handle_attach_metrics handle_shift_open handle_shift_close handle_shift_active : Handler
  handle_transaction_actions handle_refunds handle_item_returns handle_stock_opname : Handler
  handle_inventory_lots handle_audit_logs handle_daily_report handle_reorder_suggestions : Handler
  handle_anomaly_alerts handle_promos handle_promo_actions handle_suppliers : Handler
  handle_purchase_orders handle_purchase_order_actions handle_cashiers : Handler
  handle_hardware_receipt_escpos handle_cash_drawer_open handle_retrain : Handler

-- A handler as it is registered: open to all, or behind `requireAuth` with the roles.
pub data Access : Type 0 where
  open_to_all : Access
  require_auth : List String → Access

pub record Route : Type 0 where
  pub pattern : String
  pub handler : Handler
  pub access : Access

abbrev pub both : Access
both = require_auth ("cashier" ∷ "admin" ∷ [])

abbrev pub admin : Access
admin = require_auth ("admin" ∷ [])

route : String → Handler → Access → Route
route pattern handler access = record { pattern = pattern; handler = handler; access = access }

unfoldable pub routes : List Route
unfolding route
routes =
    route "/healthz" handle_health open_to_all
    ∷ route "/api/v1/auth/login" handle_login open_to_all
    ∷ route "/api/v1/auth/csrf-token" handle_csrf_token open_to_all
    ∷ route "/api/v1/products" handle_products both
    ∷ route "/api/v1/products/" handle_product_actions admin
    ∷ route "/api/v1/cart/recommendation" handle_recommendation both
    ∷ route "/api/v1/checkout" handle_checkout both
    ∷ route "/api/v1/checkout/idempotency/" handle_checkout_lookup both
    ∷ route "/api/v1/carts/hold" handle_held_carts both
    ∷ route "/api/v1/carts/hold/" handle_held_cart_actions both
    ∷ route "/api/v1/sync/offline-transactions" handle_offline_sync both
    ∷ route "/api/v1/metrics/attach-rate" handle_attach_metrics both
    ∷ route "/api/v1/shifts/open" handle_shift_open both
    ∷ route "/api/v1/shifts/close" handle_shift_close both
    ∷ route "/api/v1/shifts/active" handle_shift_active both
    ∷ route "/api/v1/transactions/" handle_transaction_actions admin
    ∷ route "/api/v1/refunds" handle_refunds admin
    ∷ route "/api/v1/returns/items" handle_item_returns admin
    ∷ route "/api/v1/stock-opname" handle_stock_opname admin
    ∷ route "/api/v1/inventory/lots" handle_inventory_lots admin
    ∷ route "/api/v1/audit-logs" handle_audit_logs admin
    ∷ route "/api/v1/reports/daily" handle_daily_report admin
    ∷ route "/api/v1/reorder-suggestions" handle_reorder_suggestions admin
    ∷ route "/api/v1/alerts/anomalies" handle_anomaly_alerts admin
    ∷ route "/api/v1/promos" handle_promos admin
    ∷ route "/api/v1/promos/" handle_promo_actions admin
    ∷ route "/api/v1/suppliers" handle_suppliers admin
    ∷ route "/api/v1/purchase-orders" handle_purchase_orders admin
    ∷ route "/api/v1/purchase-orders/" handle_purchase_order_actions admin
    ∷ route "/api/v1/users/cashiers" handle_cashiers admin
    ∷ route "/api/v1/hardware/receipt/escpos" handle_hardware_receipt_escpos both
    ∷ route "/api/v1/hardware/cash-drawer/open" handle_cash_drawer_open both
    ∷ route "/api/v1/recommendation/retrain" handle_retrain admin
    ∷ []

-- What `http.ServeMux` does with a path: it sends an unclean path to the clean one, takes the route
-- of the path itself, else the longest route that ends in a slash and begins the path, and sends a
-- path without its last slash to the route with it.
unfoldable pub is_clean : String → Bool
is_clean path =
    has_prefix path "/"
    && not (contains path "//")
    && not (contains path "/./")
    && not (contains path "/../")
    && not (has_suffix path "/.")
    && not (has_suffix path "/..")

unfoldable pub exact_route : String → List Route → Option Route
exact_route path [] = none
exact_route path (r ∷ rest) = if str_eq r.pattern path then some r else exact_route path rest

unfoldable pub longer : Route → Option Route → Option Route
longer r none = some r
longer r (some other) = if ltb (len r.pattern) (len other.pattern) then some other else some r

unfoldable pub prefix_route : String → List Route → Option Route
unfolding longer
prefix_route path [] = none
prefix_route path (r ∷ rest) =
    let found = prefix_route path rest in
    if has_suffix r.pattern "/" && has_prefix path r.pattern then longer r found else found

pub data Outcome : Type 0 where
  -- the handler, with the user in the context of the request
  handled : Handler → Option Actor → Outcome
  -- an answer with this status
  refused : ℕ → Outcome
  redirected : Outcome
  no_content : Outcome

unfoldable pub is_role_allowed : String → List String → Bool
is_role_allowed role [] = false
is_role_allowed role (allow ∷ rest) = str_eq role allow || is_role_allowed role rest

-- `len(roles) == 0`
abbrev pub is_empty : List String → Bool
is_empty [] = true
is_empty (_ ∷ _) = false

-- `strings.TrimSpace(authorization[len("Bearer "):])`
unfoldable pub bearer_token : String → String
bearer_token authorization = trim_space (slice authorization 7 (len authorization))

module _ (j : Jwt) (now : Time) (manager : AuthManager) (r : Request) where
  unfoldable pub require_roles : Handler → List String → Outcome
  require_roles handler roles =
      let authorization = trim_space (r.header "Authorization") in
      if not (has_prefix (to_lower authorization) "bearer ")
      then refused 401
      else elim (parse_token j now manager (bearer_token authorization)) [
        | err _ ↦ refused 401
        | ok actor ↦
            if not (is_empty roles) && not (is_role_allowed actor.role roles)
            then refused 403
            else handled handler (some actor)
      ]

  unfoldable pub enter : Route → Outcome
  enter found = elim found.access [
    | open_to_all ↦ handled found.handler none
    | require_auth roles ↦ require_roles found.handler roles
  ]

  unfoldable pub serve_mux : List Route → Outcome
  serve_mux table = if not (is_clean r.path) then redirected else elim (exact_route r.path table) [
    | some found ↦ enter found
    | none ↦ elim (exact_route (r.path ++ˢ "/") table) [
      | some _ ↦ redirected
      | none ↦ elim (prefix_route r.path table) [ some found ↦ enter found | none ↦ refused 404 ]
    ]
  ]

  -- `withMiddleware` around the routes
  unfoldable pub serve : HexHmac → String → Outcome
  serve hex_hmac csrf_secret =
      if str_eq r.method "OPTIONS"
      then no_content
      else if not (check_csrf hex_hmac csrf_secret now r)
      then refused 403
      else serve_mux routes
