-- ===== src/Http/Handlers/Floor.antt =====
-- The handlers of shifts, held carts and stock counts. `query` is `r.URL.Query().Get`.
use kasirinaja.Prelude.{
  not, String, str_eq, trim_space, trim_prefix, trim_suffix, has_prefix, has_suffix, if◌then◌else◌,
}
use kasirinaja.Domain.{
  Env, ShiftOpenRequest, ShiftCloseRequest, ShiftResponse, HoldCartRequest, HoldCartResponse,
  HeldCartListResponse, StockOpnameRequest, StockOpnameResponse,
}
use kasirinaja.Store.{message, Result, ok, err}
use kasirinaja.Service.Context.{Context, Formats}
use kasirinaja.Service.Checkout.{active_shift}
use kasirinaja.Service.Shifts.{open_shift, close_shift}
use kasirinaja.Service.Carts.{hold_cart, list_held_carts, resume_held_cart, discard_held_cart}
use kasirinaja.Service.Opname.{stock_opname}
use kasirinaja.Http.Csrf.{Request}
use kasirinaja.Http.Handlers.{
  Api, Reply, write_error, method_not_allowed, serve_as, post_call, get_call, replies, found_status,
  valid_status, admin_status, refund_status, trim_slashes,
}

-- What the path of a held cart asks for.
pub data CartAction : Type 0 where
  resume discard : String → CartAction

unfoldable pub cart_path : String → Result CartAction
unfolding trim_slashes
cart_path path =
    let tail = trim_space (trim_slashes (trim_prefix path "/api/v1/carts/hold/")) in
    if not (has_prefix path "/api/v1/carts/hold/")
    then err (message "invalid held cart action path")
    else if str_eq tail ""
    then err (message "held cart action path required")
    else if has_suffix tail "/resume"
    then ok (resume (trim_slashes (trim_suffix tail "/resume")))
    else if has_suffix tail "/discard"
    then ok (discard (trim_slashes (trim_suffix tail "/discard")))
    else err (message "unknown held cart action")

-- The two answers of `handleHeldCarts` and of `handleHeldCartActions`.
pub data CartReply (F : Type 0) : Type 0 where
  listed : HeldCartListResponse F → CartReply F
  held : HoldCartResponse F → CartReply F
  -- `{"ok": true}`
  discarded : CartReply F

module _ {F : Type 0} (ctx : Context) (formats : Formats) (env : Env) (r : Request)
    (query : String → String) where
  unfoldable pub handle_shift_open : Result ShiftOpenRequest → Api F → Reply ShiftResponse × Api F
  unfolding post_call
  handle_shift_open = post_call r (λ e. 422) (open_shift ctx env)

  unfoldable pub handle_shift_close : Result ShiftCloseRequest → Api F → Reply ShiftResponse × Api F
  unfolding post_call found_status
  handle_shift_close = post_call r found_status (close_shift ctx env)

  unfoldable pub handle_shift_active : Api F → Reply ShiftResponse × Api F
  unfolding get_call found_status replies
  handle_shift_active = get_call r found_status (
      replies (λ shift. record { shift = shift })
        (active_shift ctx (query "store_id") (query "terminal_id")))

  unfoldable pub handle_held_carts :
      Result (HoldCartRequest F) → Api F → Reply (CartReply F) × Api F
  unfolding get_call post_call valid_status replies
  handle_held_carts body a =
      if str_eq r.method "GET"
      then get_call r valid_status
          (replies listed (list_held_carts ctx (query "store_id") (query "terminal_id"))) a
      else post_call r valid_status (λ request. replies held (hold_cart ctx formats env request))
          body a

  unfoldable pub handle_held_cart_actions : Api F → Reply (CartReply F) × Api F
  unfolding write_error serve_as replies cart_path
  handle_held_cart_actions a =
      if not (str_eq r.method "POST") then (method_not_allowed, a) else elim (cart_path r.path) [
        | err e ↦ (write_error 400 e, a)
        | ok action ↦ elim action [
          | resume id ↦ serve_as 200 refund_status (replies held (resume_held_cart ctx env id)) a
          | discard id ↦
              serve_as 200 refund_status (replies (λ _. discarded) (discard_held_cart ctx env id)) a
        ]
      ]

  unfoldable pub handle_stock_opname :
      Result StockOpnameRequest → Api F → Reply StockOpnameResponse × Api F
  unfolding post_call admin_status valid_status
  handle_stock_opname = post_call r (admin_status valid_status) (stock_opname ctx formats env)
