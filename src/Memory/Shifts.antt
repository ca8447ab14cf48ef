-- ===== src/Memory/Shifts.antt =====
-- `Store`: cashier shifts, at most one open for each terminal.
pub mod Life
pub mod Invariant
use kasirinaja.Prelude.{
  ℤ, pos, ◌||◌, not, String, none, some, lookup, insert, erase, is_some, str_eq, trim_space,
}
use kasirinaja.Domain.{Time, Env, or_new_id, or_now, Shift, shift_status_open, shift_status_closed}
use kasirinaja.Store.{
  not_found, invalid_transaction, Action, pure, gets, or_raise, raise_if, modify, ◌>>=◌, ◌>>◌,
}
use kasirinaja.Memory.State.{Store}
use Prim.Native.String.{◌++◌ as str_append}

unfoldable pub shift_map_key : String → String → String
shift_map_key store terminal = str_append store (str_append "::" terminal)

module _ {F : Type 0} where
  unfoldable pub create_shift : Env → Shift → Action (Store F) Shift
  create_shift env request = do
    raise_if (str_eq (trim_space request.store_id) "" || str_eq (trim_space request.terminal_id) "")
        invalid_transaction
    let key = shift_map_key request.store_id request.terminal_id
    active ← gets (λ s. lookup key s.active_shift_by_key)
    raise_if (is_some active) invalid_transaction
    let shift = record request {
      id = or_new_id env "shift" 0 request.id;
      opened_at = or_now env 0 request.opened_at;
      status = shift_status_open;
      closed_at = none;
      closing_cash_cents = pos 0;
    }
    modify λ s. record s {
      shifts_by_id = insert shift.id shift s.shifts_by_id;
      active_shift_by_key = insert key shift.id s.active_shift_by_key;
    }
    pure shift

  unfoldable pub close_active_shift : Env → String → String → ℤ → Time → Action (Store F) Shift
  close_active_shift env store terminal closing_cash at = do
    raise_if (str_eq (trim_space store) "" || str_eq (trim_space terminal) "") invalid_transaction
    let key = shift_map_key store terminal
    id ← or_raise (← gets (λ s. lookup key s.active_shift_by_key)) not_found
    shift ← or_raise (← gets (λ s. lookup id s.shifts_by_id)) not_found
    raise_if (not (str_eq shift.status shift_status_open)) not_found
    let closed = record shift {
      status = shift_status_closed;
      closing_cash_cents = closing_cash;
      closed_at = some (or_now env 0 at);
    }
    modify λ s. record s {
      active_shift_by_key = erase key s.active_shift_by_key;
      shifts_by_id = insert id closed s.shifts_by_id;
    }
    pure closed

  unfoldable pub get_active_shift : String → String → Action (Store F) Shift
  get_active_shift store terminal = do
    id ←
        or_raise (← gets (λ s. lookup (shift_map_key store terminal) s.active_shift_by_key))
          not_found
    shift ← or_raise (← gets (λ s. lookup id s.shifts_by_id)) not_found
    raise_if (not (str_eq shift.status shift_status_open)) not_found
    pure shift
