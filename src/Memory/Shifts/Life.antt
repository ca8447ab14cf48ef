-- ===== src/Memory/Shifts/Life.antt =====
-- The life of a shift: at most one is open for a terminal, and closing it ends it.
use kasirinaja.Prelude.{
  ℤ, ◌≡◌, ◌≢◌, refl, true, false, eq_iff, String, none, some, lookup, insert, erase, lookup-insert,
  lookup-erase, str_eq, eq_refl, trim_space, arith, ◌||◌, Option-cases, inl, inr,
}
use kasirinaja.Domain.{Time, Env, Shift, shift_status_open, shift_status_closed}
use kasirinaja.Store.{ok, err, not_found, invalid_transaction}
use kasirinaja.Memory.State.{Store}
use kasirinaja.Memory.Shifts.{shift_map_key, create_shift, close_active_shift, get_active_shift}

module _ {F : Type 0} where
  pub create_shift-ok :
      (env : Env) (request : Shift) (s : Store F) {made : Shift} {s' : Store F}
      → create_shift env request s ≡ (ok made, s')
      → let key = shift_map_key request.store_id request.terminal_id in
        (lookup key s.active_shift_by_key ≡ none)
        × (str_eq (trim_space request.store_id) "" || str_eq (trim_space request.terminal_id) ""
            ≡ false)
        × (made.status ≡ shift_status_open)
        × (s'.shifts_by_id ≡ insert made.id made s.shifts_by_id)
        × (s'.active_shift_by_key ≡ insert key made.id s.active_shift_by_key)
  unfolding create_shift
  create_shift-ok env request s h =
      elim (Option-cases
        (lookup (shift_map_key request.store_id request.terminal_id) s.active_shift_by_key)) [
          | inl e ↦ ground arith
          | inr (id, e) ↦ ground arith
        ]

  pub close_active_shift-ok :
      (env : Env) (store terminal : String) (cash : ℤ) (at : Time) (s : Store F) {closed : Shift}
      {s' : Store F}
      → close_active_shift env store terminal cash at s ≡ (ok closed, s')
      → let key = shift_map_key store terminal in
        (id : String) × (lookup key s.active_shift_by_key ≡ some id)
        × (closed.status ≡ shift_status_closed)
        × (closed.closing_cash_cents ≡ cash)
        × (s'.shifts_by_id ≡ insert id closed s.shifts_by_id)
        × (s'.active_shift_by_key ≡ erase key s.active_shift_by_key)
  unfolding close_active_shift
  close_active_shift-ok env store terminal cash at s h =
      elim (Option-cases (lookup (shift_map_key store terminal) s.active_shift_by_key)) [
        | inl e ↦ ground arith
        | inr (id, e) ↦ elim (Option-cases (lookup id s.shifts_by_id)) [
          | inl q ↦ ground arith
          | inr (shift, q) ↦ (id, e, ground arith, ground arith, ground arith, ground arith)
        ]
      ]

  -- A shift that was opened is the active one of its terminal, and opening another one there is
  -- refused and changes nothing.
  pub create_shift_exclusive :
      (env env' : Env) (request request' : Shift) (s : Store F) {made : Shift} {s' : Store F}
      → create_shift env request s ≡ (ok made, s')
      → request'.store_id ≡ request.store_id
      → request'.terminal_id ≡ request.terminal_id
      → (get_active_shift request.store_id request.terminal_id s' ≡ (ok made, s'))
        × (create_shift env' request' s' ≡ (err invalid_transaction, s'))
  unfolding get_active_shift create_shift
  create_shift_exclusive env env' request request' s {made} {s'} h e f =
      let (_, filled, status, shifts, active) = create_shift-ok env request s h in
      let key = shift_map_key request.store_id request.terminal_id in
      let here : lookup key s'.active_shift_by_key ≡ some made.id =
        rw (active, lookup-insert, eq_refl) in
      let there : lookup made.id s'.shifts_by_id ≡ some made =
        rw (shifts, lookup-insert, eq_refl) in
      let open_now : str_eq made.status shift_status_open ≡ true = rw status refl in
      (ground arith, rw (e, f) (ground arith))

  -- Closing the active shift of a terminal puts it on record as closed with the counted cash, the
  -- other shifts as they were, and leaves the terminal without one, so that closing it again finds
  -- nothing and changes nothing.
  pub close_active_shift_ends :
      (env env' : Env) (store terminal : String) (cash cash' : ℤ) (at at' : Time) (s : Store F)
      {closed : Shift} {s' : Store F}
      → close_active_shift env store terminal cash at s ≡ (ok closed, s')
      → (closed.status ≡ shift_status_closed)
        × (closed.closing_cash_cents ≡ cash)
        × ((id : String) × (lookup (shift_map_key store terminal) s.active_shift_by_key ≡ some id)
            × (lookup id s'.shifts_by_id ≡ some closed)
            × ((other : String)
                → other ≢ id
                → lookup other s'.shifts_by_id ≡ lookup other s.shifts_by_id))
        × (get_active_shift store terminal s' ≡ (err not_found, s'))
        × (close_active_shift env' store terminal cash' at' s' ≡ (err not_found, s'))
  unfolding get_active_shift close_active_shift
  close_active_shift_ends env env' store terminal cash cash' at at' s {closed} {s'} h =
      let (id, here, status, counted, shifts, active) =
        close_active_shift-ok env store terminal cash at s h in
      let key = shift_map_key store terminal in
      let gone : lookup key s'.active_shift_by_key ≡ none = rw (active, lookup-erase, eq_refl) in
      (
        status,
        counted,
        (
          id,
          here,
          rw (shifts, lookup-insert, eq_refl) refl,
          λ other apart.
              let ne : str_eq id other ≡ false = ground (arith, eq_iff id other) in
              rw (shifts, lookup-insert, ne) refl,
        ),
        ground arith,
        ground arith,
      )

  -- Every active entry leads to an open shift, and no two terminals share one.
  pub record IsConsistent (s : Store F) : Type 0 where
    pub is_open :
        (key id : String)
        → lookup key s.active_shift_by_key ≡ some id
        → (shift : Shift) × (lookup id s.shifts_by_id ≡ some shift)
          × (shift.status ≡ shift_status_open)
    pub one_terminal :
        (key key' id : String)
        → lookup key s.active_shift_by_key ≡ some id
        → lookup key' s.active_shift_by_key ≡ some id
        → key ≡ key'

  pub data ShiftStep (s s' : Store F) : Type 0 where
    opens :
        (env : Env) (request made : Shift)
        → create_shift env request s ≡ (ok made, s')
        → lookup made.id s.shifts_by_id ≡ none
        → ShiftStep s s'
    closes :
        (env : Env) (store terminal : String) (cash : ℤ) (at : Time) (closed : Shift)
        → close_active_shift env store terminal cash at s ≡ (ok closed, s')
        → ShiftStep s s'

  pub data ShiftRun (s : Store F) : Store F → Type 0 where
    here : ShiftRun s s
    next : {t u : Store F} → ShiftRun s t → ShiftStep t u → ShiftRun s u
