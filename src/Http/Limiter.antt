-- ===== src/Http/Limiter.antt =====
-- `attemptLimiter`: a bound on the attempts of a client within a window of time.
pub mod History
pub mod Window
use kasirinaja.Prelude.{
  ℕ, ℤ, pos, pos_part, ◌+◌, ◌*◌, ◌^◌, Bool, true, false, String, List, [], ◌∷◌, ◌++◌, Dict, lookup,
  insert, get_or, filter, length, ltb, leb, ltb_ℤ, leb_ℤ, if◌then◌else◌,
}
use kasirinaja.Domain.{Time}

pub record AttemptLimiter : Type 0 where
  pub max : ℕ
  pub window : ℕ
  pub entries : Dict (List Time)

-- At least one attempt, and a window of a minute where none is given.
unfoldable pub new_attempt_limiter : ℤ → ℤ → AttemptLimiter
new_attempt_limiter max window = record {
  max = if ltb_ℤ max (pos 1) then 1 else pos_part max;
  window = if leb_ℤ window (pos 0) then 60 * 10 ^ 9 else pos_part window;
  entries = [];
}

-- The attempts after `now.Add(-window)`.
unfoldable pub kept_attempts : ℕ → Time → List Time → List Time
kept_attempts window now history = filter (λ ts. ltb now (ts + window)) history

-- `Allow` at the time `now`
unfoldable pub allow : String → Time → AttemptLimiter → Bool × AttemptLimiter
allow key now l =
    let kept = kept_attempts l.window now (get_or (lookup key l.entries) []) in
    if leb l.max (length kept)
    then (false, record l { entries = insert key kept l.entries })
    else (true, record l { entries = insert key (kept ++ (now ∷ [])) l.entries })
