-- ===== src/Service/Shifts.antt =====
-- Opening and closing the shift of a cashier.
use kasirinaja.Prelude.{pos, ◌||◌, none, str_eq, show_int}
use kasirinaja.Domain.{Env, ShiftOpenRequest, ShiftCloseRequest, ShiftResponse, shift_status_open}
use kasirinaja.Store.{
  is_invalid_transaction, invalid_transaction, message, ok, err, Action, pure, raise, raise_if,
  ◌>>=◌, ◌>>◌,
}
use kasirinaja.Memory.State.{Store}
use kasirinaja.Memory.Shifts.{create_shift, close_active_shift}
use kasirinaja.Service.Context.{Context, later, or_default_store, attempt, log_audit}
use kasirinaja.Prelude.{if◌then◌else◌}
use Prim.Native.String.{◌++◌ as str_append}

module _ {F : Type 0} where
  unfoldable pub open_shift : Context → Env → ShiftOpenRequest → Action (Store F) ShiftResponse
  open_shift ctx env request = do
    let store = or_default_store ctx request.store_id
    raise_if (str_eq request.terminal_id "" || str_eq request.cashier_name "") invalid_transaction
    result ← attempt (
        create_shift (later 1 env) (record {
          id = env.new_id "shift" 0;
          store_id = store;
          terminal_id = request.terminal_id;
          cashier_name = request.cashier_name;
          opening_float_cents = request.opening_float_cents;
          closing_cash_cents = pos 0;
          status = shift_status_open;
          opened_at = env.now 0;
          closed_at = none;
        }))
    elim result [
      | err e ↦ if is_invalid_transaction e then raise (message "shift already open") else raise e
      | ok shift ↦ do
        log_audit ctx (later 1 env) store "shift_open" "shift" shift.id request.cashier_name
        pure (record { shift = shift })
    ]

  unfoldable pub close_shift : Context → Env → ShiftCloseRequest → Action (Store F) ShiftResponse
  close_shift ctx env request = do
    let store = or_default_store ctx request.store_id
    raise_if (str_eq request.terminal_id "") invalid_transaction
    shift ←
        close_active_shift (later 1 env) store request.terminal_id request.closing_cash_cents
          (env.now 0)
    log_audit ctx (later 1 env) store "shift_close" "shift" shift.id
        (str_append "closing_cash=" (show_int request.closing_cash_cents))
    pure (record { shift = shift })
