-- ===== src/Http/Handlers.antt =====
-- The handlers of the sales and of the log-in: the method, the body, the limiters, the manager PIN
-- and the status of the answer. A body comes as the result of `decodeJSON`.
pub mod Pin
pub mod Floor
pub mod Office
pub mod Reports
use kasirinaja.Prelude.{
  ℕ, suc, ◌*◌, ◌^◌, pos, Bool, true, false, not, ◌&&◌, ◌||◌, String, Option, none, some, List, [],
  ◌∷◌, str_eq, leb, ltb, trim_space, to_lower, trim_prefix, trim_suffix, has_prefix, has_suffix,
  contains, if◌then◌else◌, Float64,
}
use Prim.Native.String.{◌++◌ as ◌++ˢ◌, slice}
use kasirinaja.Domain.{
  Time, Env, LoginRequest, LoginResponse, CheckoutRequest, CheckoutResponse, OfflineSyncRequest,
  OfflineSyncResponse, VoidTransactionRequest, VoidTransactionResponse, RefundRequest,
  RefundResponse, ItemReturnRequest, ItemReturnResponse,
}
use kasirinaja.Store.{
  Error, insufficient_stock, wrapped, message, is_not_found, is_invalid_transaction, Result, ok,
  err,
}
use kasirinaja.Memory.State.{Store}
use kasirinaja.Service.Context.{Context, Formats, later}
use kasirinaja.Service.Checkout.{checkout}
use kasirinaja.Service.Sales.{error_text, void_transaction, refund, sync_offline}
use kasirinaja.Service.Returns.{process_item_return}
use kasirinaja.Http.Limiter.{AttemptLimiter, new_attempt_limiter, allow}
use kasirinaja.Http.Auth.Outside.{Bcrypt, Jwt, memory_users}
use kasirinaja.Http.Auth.{AuthManager, validate_manager_pin, login}
use kasirinaja.Http.Csrf.{Request}

-- The state of the server. Its accounts are those of the store.
pub record Api (F : Type 0) : Type 0 where
  pub store : Store F
  pub manager : AuthManager
  pub login_limiter : AttemptLimiter
  pub pin_limiter : AttemptLimiter

-- `New`: five log-ins and eight PINs in a minute for each client.
unfoldable pub new_api : {F : Type 0} → Store F → AuthManager → Api F
new_api store manager = record {
  store = store;
  manager = manager;
  login_limiter = new_attempt_limiter (pos 5) (pos (60 * 10 ^ 9));
  pin_limiter = new_attempt_limiter (pos 8) (pos (60 * 10 ^ 9));
}

-- What is written: a payload, or the text of an error, with the status.
pub data Reply (A : Type 0) : Type 0 where
  replied : ℕ → A → Reply A
  failed : ℕ → String → Reply A

-- `errors.Is(err, store.ErrInsufficientStock)`
abbrev pub is_insufficient_stock : Error → Bool
is_insufficient_stock insufficient_stock = true
is_insufficient_stock (wrapped e _) = is_insufficient_stock e
is_insufficient_stock _ = false

-- the last place of ":", as `strings.LastIndex` counts it
unfoldable pub last_colon : String → Option ℕ
last_colon String.[] = none
last_colon (String.◌∷◌ c s) = elim (last_colon s) [
  | some i ↦ some (suc i)
  | none ↦ if has_prefix (String.◌∷◌ c s) ":" then some 0 else none
]

-- `strings.Trim(s, "/")`
drop_first : String → String
drop_first String.[] = ""
drop_first (String.◌∷◌ c s) =
    let rest = drop_first s in if has_prefix (String.◌∷◌ c s) "/" then rest else String.◌∷◌ c s

drop_last : String → String
drop_last String.[] = ""
drop_last (String.◌∷◌ c s) =
    let rest = drop_last s in
    if has_prefix (String.◌∷◌ c s) "/" && str_eq rest "" then "" else String.◌∷◌ c rest

unfoldable pub trim_slashes : String → String
unfolding drop_first drop_last
trim_slashes s = drop_last (drop_first s)

-- `parse_addr_port` is netip's `ParseAddrPort`, with the address that it reads as text.
unfoldable pub client_key : (String → Option String) → Request → String
unfolding last_colon
client_key parse_addr_port r =
    let host = trim_space r.remote_addr in
    if str_eq host "" then "unknown" else elim (parse_addr_port host) [
      | some addr ↦ addr
      | none ↦ elim (last_colon host) [
        | none ↦ host
        | some i ↦ if ltb 0 i then slice host 0 i else host
      ]
    ]

unfoldable pub write_error : {A : Type 0} → ℕ → Error → Reply A
write_error status e =
    failed status (if leb 500 status then "internal server error" else error_text e)

abbrev pub method_not_allowed : {A : Type 0} → Reply A
method_not_allowed = write_error 405 (message "method not allowed")

-- The answer to the result of a call of the service.
unfoldable pub answer : {A : Type 0} → ℕ → (Error → ℕ) → Result A → Reply A
answer code status (ok resp) = replied code resp
answer code status (err e) = write_error (status e) e

unfoldable pub void_status : Error → ℕ
void_status e = if is_invalid_transaction e then 409 else if is_not_found e then 404 else 422

-- of a refund, and of a return
unfoldable pub refund_status : Error → ℕ
refund_status e = if is_invalid_transaction e then 400 else if is_not_found e then 404 else 422

unfoldable pub found_status : Error → ℕ
found_status e = if is_not_found e then 404 else 422

unfoldable pub valid_status : Error → ℕ
valid_status e = if is_invalid_transaction e then 400 else 422

-- where the service checks the role
unfoldable pub admin_status : (Error → ℕ) → Error → ℕ
unfolding error_text
admin_status status e =
    if contains (to_lower (error_text e)) "admin role required" then 403 else status e

unfoldable pub checkout_status : Error → ℕ
unfolding error_text
checkout_status e =
    if is_insufficient_stock e
    then 409
    else if is_invalid_transaction e
    then 400
    else if contains (to_lower (error_text e)) "manual override"
    then 403
    else 422

-- A result under another form.
unfoldable pub replies : {S A B : Type 0} → (A → B) → (S → Result A × S) → S → Result B × S
replies f call s =
    let (result, s') = call s in (elim result [ ok a ↦ ok (f a) | err e ↦ err e ], s')

-- The code of the transaction in the path of a void.
unfoldable pub void_path : String → Result String
unfolding trim_slashes
void_path path =
    if not (has_prefix path "/api/v1/transactions/") || not (has_suffix path "/void")
    then err (message "invalid transaction action path")
    else let id =
        trim_space
          (trim_slashes (trim_suffix (trim_prefix path "/api/v1/transactions/") "/void")) in
      if str_eq id "" then err (message "transaction id required") else ok id

module _ {F : Type 0} where
  -- The limiter and the PIN: an error with its status, or nothing.
  unfoldable pub check_pin :
      Bcrypt
      → (String → Option String)
      → Time
      → Request
      → String
      → String
      → Api F
      → Option (ℕ × Error) × Api F
  check_pin b parse_addr_port now r tag pin a =
      let (allowed, limiter) = allow (tag ++ˢ client_key parse_addr_port r) now a.pin_limiter in
      (
        if not allowed
            then some (429, message "too many manager pin attempts")
            else if not (validate_manager_pin b a.manager pin)
            then some (403, message "invalid manager pin")
            else none,
        record a { pin_limiter = limiter },
      )

  -- A call of the service, with the status of its answer and of its errors.
  unfoldable pub serve_as :
      {A : Type 0} → ℕ → (Error → ℕ) → (Store F → Result A × Store F) → Api F → Reply A × Api F
  unfolding answer
  serve_as code status call a =
      let (result, s) = call a.store in (answer code status result, record a { store = s })

  -- A call that the guards let through, or their answer.
  unfoldable pub serve_call :
      {A : Type 0}
      → (Error → ℕ)
      → (Store F → Result A × Store F)
      → Option (ℕ × Error) × Api F
      → Reply A × Api F
  unfolding write_error serve_as
  serve_call status call (some (code, e), a) = (write_error code e, a)
  serve_call status call (none, a) = serve_as 200 status call a

  -- A handler that takes a body and no other method than POST, with the status of a success, and
  -- one of GET.
  unfoldable pub create_call :
      {A B : Type 0}
      → Request
      → ℕ
      → (Error → ℕ)
      → (A → Store F → Result B × Store F)
      → Result A
      → Api F
      → Reply B × Api F
  unfolding write_error serve_as
  create_call r code status call body a =
      if not (str_eq r.method "POST") then (method_not_allowed, a) else elim body [
        | err e ↦ (write_error 400 e, a)
        | ok request ↦ serve_as code status (call request) a
      ]

  unfoldable pub post_call :
      {A B : Type 0}
      → Request
      → (Error → ℕ)
      → (A → Store F → Result B × Store F)
      → Result A
      → Api F
      → Reply B × Api F
  unfolding create_call
  post_call r = create_call r 200

  unfoldable pub get_call :
      {B : Type 0}
      → Request
      → (Error → ℕ)
      → (Store F → Result B × Store F)
      → Api F
      → Reply B × Api F
  unfolding write_error serve_as
  get_call r status call a =
      if not (str_eq r.method "GET") then (method_not_allowed, a) else serve_as 200 status call a

module _ {F : Type 0} ⦃fl : Float64 F⦄ (b : Bcrypt) (parse_addr_port : String → Option String)
    (ctx : Context) (formats : Formats) (env : Env) (r : Request) where
  unfoldable pub handle_transaction_actions :
      Result VoidTransactionRequest → Api F → Reply VoidTransactionResponse × Api F
  unfolding void_path check_pin serve_call write_error
  handle_transaction_actions body a =
      if not (str_eq r.method "POST") then (method_not_allowed, a) else elim (void_path r.path) [
        | err e ↦ (write_error 400 e, a)
        | ok id ↦ elim body [
          | err e ↦ (write_error 400 e, a)
          | ok request ↦
              serve_call void_status
                (void_transaction ctx formats (later 1 env)
                  (record request { transaction_id = id }))
                (check_pin b parse_addr_port (env.now 0) r "pin:void:" request.manager_pin a)
        ]
      ]

  unfoldable pub handle_refunds : Result RefundRequest → Api F → Reply RefundResponse × Api F
  unfolding check_pin serve_call write_error
  handle_refunds body a =
      if not (str_eq r.method "POST") then (method_not_allowed, a) else elim body [
        | err e ↦ (write_error 400 e, a)
        | ok request ↦
            serve_call refund_status (refund ctx (later 1 env) request)
              (check_pin b parse_addr_port (env.now 0) r "pin:refund:" request.manager_pin a)
      ]

  unfoldable pub handle_item_returns :
      Result ItemReturnRequest → Api F → Reply ItemReturnResponse × Api F
  unfolding check_pin serve_call write_error
  handle_item_returns body a =
      if not (str_eq r.method "POST") then (method_not_allowed, a) else elim body [
        | err e ↦ (write_error 400 e, a)
        | ok request ↦
            serve_call refund_status (process_item_return ctx formats (later 1 env) request)
              (check_pin b parse_addr_port (env.now 0) r "pin:return:" request.manager_pin a)
      ]

  unfoldable pub handle_checkout :
      Result (CheckoutRequest F) → Api F → Reply CheckoutResponse × Api F
  unfolding post_call
  handle_checkout = post_call r checkout_status (checkout ctx formats env)

  unfoldable pub handle_offline_sync :
      Result (OfflineSyncRequest F) → Api F → Reply OfflineSyncResponse × Api F
  unfolding post_call
  handle_offline_sync = post_call r (λ e. 422) (sync_offline ctx formats env)

  unfoldable pub handle_login :
      Jwt → (ℕ → String) → Result LoginRequest → Api F → Reply LoginResponse × Api F
  unfolding write_error answer
  handle_login j salts body a =
      if not (str_eq r.method "POST")
      then (method_not_allowed, a)
      else let (allowed, limiter) =
          allow (client_key parse_addr_port r) (env.now 0) a.login_limiter in
        let limited = record a { login_limiter = limiter } in
        if not allowed
        then (write_error 429 (message "too many login attempts"), limited)
        else elim body [
          | err e ↦ (write_error 400 e, limited)
          | ok request ↦
              let (result, auth) =
                login b (some (memory_users (later 1 env))) (later 1 env) salts j formats request
                  (record { manager = a.manager; accounts = a.store }) in
              (
                answer 200 (λ e. 401) result,
                record limited { manager = auth.manager; store = auth.accounts },
              )
        ]
