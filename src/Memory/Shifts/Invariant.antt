-- ===== src/Memory/Shifts/Invariant.antt =====
-- Whatever terminals open and close, the map of the active shifts stays consistent.
use kasirinaja.Prelude.{
  ◌≡◌, ◌∙◌, ap, String, none, some, lookup, insert, erase, lookup-insert, lookup-erase, str_eq,
  eq_iff, arith, if◌then◌else◌, Bool-cases, inl, inr, Dict,
}
use kasirinaja.Memory.State.{Store}
use kasirinaja.Memory.Shifts.{shift_map_key}
use kasirinaja.Memory.Shifts.Life.{
  IsConsistent, ShiftStep, opens, closes, ShiftRun, here, next, create_shift-ok,
  close_active_shift-ok,
}

-- the entry of a map after one more was made, or one removed
inserted :
    {V : Type 0} (j k : String) (v : V) (d d' : Dict V)
    → d' ≡ insert k v d
    → lookup j d' ≡ (if str_eq k j then some v else lookup j d)
inserted j k v d d' e = ap (lookup j) e ∙ lookup-insert j k v d

erased :
    {V : Type 0} (j k : String) (d d' : Dict V)
    → d' ≡ erase k d
    → lookup j d' ≡ (if str_eq k j then none else lookup j d)
erased j k d d' e = ap (lookup j) e ∙ lookup-erase j k d

module _ {F : Type 0} where
  -- no active entry leads to an identifier that no shift has
  not_shared :
      {s : Store F} (c : IsConsistent s) (key id : String)
      → lookup id s.shifts_by_id ≡ none
      → lookup key s.active_shift_by_key ≡ some id
      → ⊥
  not_shared c key id fresh h = let (shift, found, _) = c.is_open key id h in cc (fresh, found)

  ShiftStep-IsConsistent : {s s' : Store F} → ShiftStep s s' → IsConsistent s → IsConsistent s'
  ShiftStep-IsConsistent {s} {s'} (opens env request made h fresh) c =
      let (free, _, status, shifts, active) = create_shift-ok env request s h in
      let key = shift_map_key request.store_id request.terminal_id in
      record {
        is_open = λ k id e. elim (Bool-cases (str_eq key k)) [
          | inl same ↦ (
            made,
            ground (
              arith,
              inserted k key made.id _ _ active,
              inserted id made.id made _ _ shifts,
              eq_iff made.id id,
            ),
            status,
          )
          | inr other ↦
              let (shift, found, state) =
                c.is_open k id (ground (arith, inserted k key made.id _ _ active)) in
              (shift, ground (arith, inserted id made.id made _ _ shifts, eq_iff made.id id), state)
        ];
        one_terminal = λ k k' id e e'. ground (
          arith,
          eq_iff key k,
          eq_iff key k',
          eq_iff made.id id,
          inserted k key made.id _ _ active,
          inserted k' key made.id _ _ active,
          not_shared c k made.id fresh,
          not_shared c k' made.id fresh,
          c.one_terminal k k' id,
        );
      }
  ShiftStep-IsConsistent {s} {s'} (closes env store terminal cash at closed h) c =
      let (id, was, status, counted, shifts, active) =
        close_active_shift-ok env store terminal cash at s h in
      let key = shift_map_key store terminal in
      record {
        is_open = λ k id' e.
            let old : lookup k s.active_shift_by_key ≡ some id' =
              ground (arith, erased k key _ _ active) in
            let (shift, found, state) = c.is_open k id' old in
            (
              shift,
              ground (
                arith,
                eq_iff key k,
                eq_iff id id',
                erased k key _ _ active,
                inserted id' id closed _ _ shifts,
                c.one_terminal key k id,
              ),
              state,
            );
        one_terminal = λ k k' id' e e'.
            ground
              (arith, erased k key _ _ active, erased k' key _ _ active, c.one_terminal k k' id');
      }

  -- From a consistent state every run of openings and closings leads to a consistent state, if every
  -- opened shift has an identifier of its own.
  pub ShiftRun-IsConsistent : {s s' : Store F} → IsConsistent s → ShiftRun s s' → IsConsistent s'
  ShiftRun-IsConsistent c here = c
  ShiftRun-IsConsistent c (next run step) =
      ShiftStep-IsConsistent step (ShiftRun-IsConsistent c run)
