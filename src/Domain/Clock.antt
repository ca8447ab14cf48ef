-- ===== src/Domain/Clock.antt =====
-- Go's `time.Time` as nanoseconds since the zero time, 1 January of the year 1 in UTC, and what an
-- operation takes from outside: the clock and the random part of its identifiers.
use kasirinaja.Prelude.{ℕ, ◌*◌, ◌^◌, Bool, String, ◌==◌, str_eq, if◌then◌else◌}

abbrev pub Time : Type 0
Time = ℕ

-- `t.IsZero()`
abbrev pub is_zero : Time → Bool
is_zero t = t == 0

abbrev pub day : ℕ
day = 24 * 60 * 60 * 10 ^ 9

-- The outside world during one operation: what its `i`-th `time.Now()` and its `i`-th `xid.New`
-- return, counted from 0.
pub record Env : Type 0 where
  pub now : ℕ → Time
  pub new_id : String → ℕ → String

-- `if x.ID == "" { x.ID = xid.New(prefix) }`
unfoldable pub or_new_id : Env → String → ℕ → String → String
or_new_id env prefix i id = if str_eq id "" then env.new_id prefix i else id

-- `if t.IsZero() { t = time.Now().UTC() }`
unfoldable pub or_now : Env → ℕ → Time → Time
or_now env i t = if is_zero t then env.now i else t
