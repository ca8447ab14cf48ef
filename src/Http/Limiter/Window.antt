-- ===== src/Http/Limiter/Window.antt =====
-- No window of time holds more allowed attempts of a client than the limiter permits.
use kasirinaja.Prelude.{
  ℕ, ℤ, pos, ◌≤◌, ◌<◌, Bool, true, false, ◌&&◌, String, List, [], ◌∷◌, ◌++◌, ◌≡◌, refl, ap, sym,
  subst, lookup, insert, length, leb, str_eq, eq_iff, eq_refl, arith, Bool-cases, inl, inr,
  if◌then◌else◌,
}
use kasirinaja.Domain.{Time}
use kasirinaja.Http.Limiter.{AttemptLimiter, new_attempt_limiter, kept_attempts, allow}
use kasirinaja.Http.Limiter.History.{
  length-kept, history, IsLog, allow-ok, history-after, IsLog-other, IsLog-refused, IsLog-allowed,
}

-- The times of the attempts of one client that are allowed, among the attempts of all.
abbrev pub allowed : String → List (String × Time) → AttemptLimiter → List Time
allowed key [] l = []
allowed key ((k, t) ∷ events) l =
    let (ok, l') = allow k t l in
    let rest = allowed key events l' in if ok && str_eq k key then t ∷ rest else rest

-- The attempts come in the order of their times, none before `last`.
abbrev pub IsOrdered : Time → List (String × Time) → Type 0
IsOrdered last [] = Unit
IsOrdered last ((_, t) ∷ events) = (last ≤ t) × IsOrdered t events

-- the time of the last attempt
abbrev pub last_time : Time → List (String × Time) → Time
last_time last [] = last
last_time last ((_, t) ∷ events) = last_time t events

-- The log after one more attempt.
abbrev logged : String → String → Time → AttemptLimiter → List Time → List Time
logged key k t l log = if (allow k t l).0 && str_eq k key then log ++ (t ∷ []) else log

IsLog-own :
    (key : String) (t : Time) (l : AttemptLimiter) (log : List Time) (last : Time)
    → IsLog key log last l
    → last ≤ t
    → IsLog key (logged key key t l log) t (allow key t l).1
IsLog-own key t l log last h order =
    let (max, window, ok, e) = allow-ok key t l in
    let kept = kept_attempts l.window t (history key l) in
    elim (Bool-cases (leb l.max (length kept))) [
      | inl full ↦
          let entries : (allow key t l).1.entries ≡ insert key kept l.entries = rw full at e in
          let after : history key (allow key t l).1 ≡ kept =
            rw eq_refl at (history-after key key t l kept entries) in
          let refused : (allow key t l).0 ≡ false = rw full at ok in
          let stays : log ≡ logged key key t l log = rw refused refl in
          subst (λ log. IsLog key log t (allow key t l).1) stays
            (IsLog-refused key t l log last h order after)
      | inr room ↦
          let entries : (allow key t l).1.entries ≡ insert key (kept ++ (t ∷ [])) l.entries =
            rw room at e in
          let after : history key (allow key t l).1 ≡ kept ++ (t ∷ []) =
            rw eq_refl at (history-after key key t l (kept ++ (t ∷ [])) entries) in
          let passed : (allow key t l).0 ≡ true = rw room at ok in
          let grows : log ++ (t ∷ []) ≡ logged key key t l log = rw (passed, eq_refl) refl in
          subst (λ log. IsLog key log t (allow key t l).1) grows
            (IsLog-allowed key t l log last h order room after)
    ]

allow-IsLog :
    (key k : String) (t : Time) (l : AttemptLimiter) (log : List Time) (last : Time)
    → IsLog key log last l
    → last ≤ t
    → IsLog key (logged key k t l log) t (allow k t l).1
allow-IsLog key k t l log last h order =
    let (max, window, ok, e) = allow-ok k t l in
    elim (Bool-cases (str_eq k key)) [
      | inr other ↦
          let skip : log ≡ logged key k t l log = rw other (ground arith) in
          subst (λ log. IsLog key log t (allow k t l).1) skip
            (IsLog-other key k t l log last h order other)
      | inl same ↦
          subst (λ k. IsLog key (logged key k t l log) t (allow k t l).1)
            (sym ((eq_iff k key).0 same)) (IsLog-own key t l log last h order)
    ]

append-nil : (xs : List Time) → xs ++ [] ≡ xs
append-nil [] = refl
append-nil (x ∷ xs) = ap (◌∷◌ x) (append-nil xs)

append_assoc :
    (xs : List Time) (y : Time) (zs : List Time) → xs ++ (y ∷ zs) ≡ (xs ++ (y ∷ [])) ++ zs
append_assoc [] y zs = refl
append_assoc (x ∷ xs) y zs = ap (◌∷◌ x) (append_assoc xs y zs)

append-if :
    (b : Bool) (log : List Time) (t : Time) (rest : List Time)
    → log ++ (if b then t ∷ rest else rest) ≡ (if b then log ++ (t ∷ []) else log) ++ rest
append-if true log t rest = append_assoc log t rest
append-if false log t rest = refl

-- The allowed attempts among `events` follow the log that was there before.
log_of_run :
    (key : String) (events : List (String × Time)) (l : AttemptLimiter) (log : List Time)
    (last now : Time)
    → IsLog key log last l
    → IsOrdered last events
    → last_time last events ≤ now
    → length (kept_attempts l.window now (log ++ allowed key events l)) ≤ l.max
log_of_run key [] l log last now h order done =
    let fewer = length-kept l.window now (history key l) in
    let same = h.remembers now done in
    let within = h.within in rw (append-nil log, ← same) (omega arith)
log_of_run key ((k, t) ∷ events) l log last now h order done =
    let (max, window, _, _) = allow-ok k t l in
    let next = allow-IsLog key k t l log last h order.0 in
    let rest =
      log_of_run key events (allow k t l).1 (logged key k t l log) t now next order.1 done in
    let joined =
      append-if ((allow k t l).0 && str_eq k key) log t (allowed key events (allow k t l).1) in
    rw joined (rw (window, max) at rest)

new-IsLog : (key : String) (max window : ℤ) → IsLog key [] 0 (new_attempt_limiter max window)
unfolding new_attempt_limiter lookup kept_attempts
new-IsLog key max window = record { remembers = λ now later. refl; within = omega arith }

new-limits :
    (max window : ℕ)
    → 0 < max
    → 0 < window
    → ((new_attempt_limiter (pos max) (pos window)).max ≡ max)
      × ((new_attempt_limiter (pos max) (pos window)).window ≡ window)
unfolding new_attempt_limiter
new-limits max window a b = ground arith

-- Of the attempts of one client, among those of all in the order of their times, a new limiter never
-- lets more than the given number through within its window, wherever the window ends, the number
-- and the window being positive.
pub attempt_limit :
    (max window : ℕ) (key : String) (events : List (String × Time)) (now : Time)
    → 0 < max
    → 0 < window
    → IsOrdered 0 events
    → last_time 0 events ≤ now
    → length
        (kept_attempts window now (allowed key events (new_attempt_limiter (pos max) (pos window))))
      ≤ max
attempt_limit max window key events now a b order done =
    let limiter = new_attempt_limiter (pos max) (pos window) in
    let (max_is, window_is) = new-limits max window a b in
    let passed = allowed key events limiter in
    subst (λ m. length (kept_attempts window now passed) ≤ m) max_is
      (subst (λ w. length (kept_attempts w now passed) ≤ limiter.max) window_is
        (log_of_run key events limiter [] 0 now (new-IsLog key (pos max) (pos window)) order done))
