-- ===== src/Tests/Door.antt =====
-- Attempts to log in.
use kasirinaja.Prelude.{pos, ◌≤◌, arith, String, List, [], ◌∷◌, length}
use kasirinaja.Domain.{Time}
use kasirinaja.Http.Limiter.{new_attempt_limiter, kept_attempts}
use kasirinaja.Http.Limiter.Window.{allowed, attempt_limit}

-- Two attempts in a window of 60, of which the third of one client is too many.
abbrev attempts : List (String × Time)
attempts = ("a", 100) ∷ ("b", 110) ∷ ("a", 120) ∷ ("a", 130) ∷ ("a", 170) ∷ []

attempt_limit_example :
    length (kept_attempts 60 175 (allowed "a" attempts (new_attempt_limiter (pos 2) (pos 60)))) ≤ 2
attempt_limit_example =
    attempt_limit 2 60 "a" attempts 175 (omega arith) (omega arith)
      (omega arith, (omega arith, (omega arith, (omega arith, (omega arith, tt))))) (omega arith)
