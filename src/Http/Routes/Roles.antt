-- ===== src/Http/Routes/Roles.antt =====
-- Who gets to which handler.
use kasirinaja.Prelude.{
  ◌≡◌, ◌≢◌, ◌⊎◌, refl, ◌∙◌, ap, subst, Bool, true, false, ◌&&◌, String, Option, none, some, List,
  [], ◌∷◌, str_eq, eq_iff, has_prefix, has_suffix, trim_space, arith, if◌then◌else◌, Bool-cases,
  Option-cases, inl, inr, All,
}
use kasirinaja.Domain.{Time, Actor}
use kasirinaja.Store.{ok, Result-cases}
use kasirinaja.Http.Auth.Outside.{Jwt}
use kasirinaja.Http.Auth.{AuthManager, parse_token}
use kasirinaja.Http.Csrf.{
  Request, HexHmac, is_mutating, is_one_of, csrf_exempt_paths, check_csrf, validate_csrf_token,
}
use kasirinaja.Http.Routes.{
  Handler, handle_health, handle_login, handle_csrf_token, handle_products, handle_recommendation,
  handle_checkout, handle_checkout_lookup, handle_held_carts, handle_held_cart_actions,
  handle_offline_sync, handle_attach_metrics, handle_shift_open, handle_shift_close,
  handle_shift_active, handle_hardware_receipt_escpos, handle_cash_drawer_open, Access, open_to_all,
  both, admin, Route, routes, exact_route, prefix_route, handled, is_empty, is_role_allowed,
  bearer_token, require_roles, enter, serve_mux, serve,
}

-- The handlers that need no user.
abbrev pub is_open : Handler → Bool
is_open handle_health = true
is_open handle_login = true
is_open handle_csrf_token = true
is_open _ = false

-- The handlers of the counter, which a cashier uses as well as an administrator.
abbrev pub is_counter : Handler → Bool
is_counter handle_products = true
is_counter handle_recommendation = true
is_counter handle_checkout = true
is_counter handle_checkout_lookup = true
is_counter handle_held_carts = true
is_counter handle_held_cart_actions = true
is_counter handle_offline_sync = true
is_counter handle_attach_metrics = true
is_counter handle_shift_open = true
is_counter handle_shift_close = true
is_counter handle_shift_active = true
is_counter handle_hardware_receipt_escpos = true
is_counter handle_cash_drawer_open = true
is_counter _ = false

abbrev access_of : Handler → Access
access_of h = if is_open h then open_to_all else if is_counter h then both else admin

abbrev IsFair : Route → Type 0
IsFair r = r.access ≡ access_of r.handler

routes-IsFair : All IsFair routes
unfolding routes
routes-IsFair = ground arith

exact_route-found :
    (P : Route → Type 0) (path : String) (table : List Route) (r : Route)
    → All P table
    → exact_route path table ≡ some r
    → P r
unfolding exact_route
exact_route-found P path [] r h e = absurd (ground arith)
exact_route-found P path (t ∷ table) r h e = elim (Bool-cases (str_eq t.pattern path)) [
  | inl same ↦ let here : t ≡ r = ground arith in subst P here h.0
  | inr other ↦ exact_route-found P path table r h.1 (rw other at e)
]

prefix_route-found :
    (P : Route → Type 0) (path : String) (table : List Route) (r : Route)
    → All P table
    → prefix_route path table ≡ some r
    → P r
unfolding prefix_route
prefix_route-found P path [] r h e = absurd (ground arith)
prefix_route-found P path (t ∷ table) r h e =
    elim (Bool-cases (has_suffix t.pattern "/" && has_prefix path t.pattern)) [
      | inl begins ↦ elim (Option-cases (prefix_route path table)) [
        | inl missing ↦ let here : t ≡ r = ground arith in subst P here h.0
        | inr (other, found) ↦
            let choice : (t ≡ r) ⊎ (other ≡ r) = ground arith in
            elim choice [
              | inl here ↦ subst P here h.0
              | inr there ↦ prefix_route-found P path table r h.1 (found ∙ ap some there)
            ]
      ]
      | inr apart ↦ prefix_route-found P path table r h.1 (ground arith)
    ]

allowed_both :
    (role : String)
    → is_role_allowed role ("cashier" ∷ "admin" ∷ []) ≡ true
    → (role ≡ "admin") ⊎ (role ≡ "cashier")
unfolding is_role_allowed
allowed_both role h = ground (arith, eq_iff role "cashier", eq_iff role "admin")

allowed_admin : (role : String) → is_role_allowed role ("admin" ∷ []) ≡ true → role ≡ "admin"
unfolding is_role_allowed
allowed_admin role h = ground (arith, eq_iff role "admin")

module _ (j : Jwt) (now : Time) (manager : AuthManager) (r : Request) where
  -- the token that the request carries
  abbrev pub token_of : String
  token_of = bearer_token (trim_space (r.header "Authorization"))

  -- The user of the request may use the handler.
  abbrev pub MayUse : Handler → Option Actor → Type 0
  MayUse h who =
      ((is_open h ≡ true) × (who ≡ none))
      ⊎ ((actor : Actor) × (who ≡ some actor)
          × (parse_token j now manager token_of ≡ ok actor)
          × ((actor.role ≡ "admin") ⊎ ((actor.role ≡ "cashier") × (is_counter h ≡ true))))

  require_roles-ok :
      (handler h : Handler) (roles : List String) (who : Option Actor)
      → is_empty roles ≡ false
      → require_roles j now manager r handler roles ≡ handled h who
      → (h ≡ handler)
        × (actor : Actor) × (who ≡ some actor)
        × (parse_token j now manager token_of ≡ ok actor)
        × (is_role_allowed actor.role roles ≡ true)
  unfolding require_roles
  require_roles-ok handler h roles who some_roles e =
      elim (Result-cases (parse_token j now manager token_of)) [
        | inr (x, bad) ↦ absurd (ground arith)
        | inl (actor, good) ↦ (ground arith, actor, ground arith, good, ground arith)
      ]

  enter-MayUse :
      (found : Route) (h : Handler) (who : Option Actor)
      → IsFair found
      → enter j now manager r found ≡ handled h who
      → MayUse h who
  unfolding enter
  enter-MayUse found h who fair e = elim (Bool-cases (is_open found.handler)) [
    | inl free ↦ inl (ground arith, ground arith)
    | inr closed ↦ elim (Bool-cases (is_counter found.handler)) [
      | inl counter ↦
          let (same, actor, is, parsed, allowed) =
            require_roles-ok found.handler h ("cashier" ∷ "admin" ∷ []) who refl (ground arith) in
          inr (
            actor,
            is,
            parsed,
            elim (allowed_both actor.role allowed) [
              | inl boss ↦ inl boss
              | inr clerk ↦ inr (clerk, ap is_counter same ∙ counter)
            ],
          )
      | inr office ↦
          let (same, actor, is, parsed, allowed) =
            require_roles-ok found.handler h ("admin" ∷ []) who refl (ground arith) in
          inr (actor, is, parsed, inl (allowed_admin actor.role allowed))
    ]
  ]

  serve_mux-MayUse :
      (table : List Route) (h : Handler) (who : Option Actor)
      → All IsFair table
      → serve_mux j now manager r table ≡ handled h who
      → MayUse h who
  unfolding serve_mux
  serve_mux-MayUse table h who fair e = elim (Option-cases (exact_route r.path table)) [
    | inr (found, exact) ↦
        enter-MayUse found h who (exact_route-found IsFair r.path table found fair exact)
          (ground arith)
    | inl missing ↦ elim (Option-cases (prefix_route r.path table)) [
      | inr (found, begins) ↦
          enter-MayUse found h who (prefix_route-found IsFair r.path table found fair begins)
            (ground arith)
      | inl nowhere ↦ absurd (ground arith)
    ]
  ]

  -- A request comes to a handler without a user only where the handler is the health check, the
  -- log-in or the CSRF token; else its bearer token stands for the user, who is an administrator,
  -- or a cashier at a handler of the counter.
  pub serve-MayUse :
      (hex_hmac : HexHmac) (csrf_secret : String) (h : Handler) (who : Option Actor)
      → serve j now manager r hex_hmac csrf_secret ≡ handled h who
      → MayUse h who
  unfolding serve
  serve-MayUse hex_hmac csrf_secret h who e =
      serve_mux-MayUse routes h who routes-IsFair (ground arith)

  -- A request that changes something comes to a handler only with a valid CSRF token, except to the
  -- paths of the log-in and of the offline synchronisation.
  pub serve-check_csrf :
      (hex_hmac : HexHmac) (csrf_secret : String) (h : Handler) (who : Option Actor)
      → serve j now manager r hex_hmac csrf_secret ≡ handled h who
      → is_mutating r.method ≡ true
      → r.path ≢ "/api/v1/auth/login"
      → r.path ≢ "/api/v1/sync/offline-transactions"
      → validate_csrf_token hex_hmac csrf_secret now (trim_space (r.header "X-CSRF-Token")) ≡ true
  unfolding serve check_csrf is_one_of csrf_exempt_paths
  serve-check_csrf hex_hmac csrf_secret h who e changes no_login no_sync =
      ground (
        arith,
        eq_iff r.path "/api/v1/auth/login",
        eq_iff r.path "/api/v1/sync/offline-transactions",
      )
