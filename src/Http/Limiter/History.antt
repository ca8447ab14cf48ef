-- ===== src/Http/Limiter/History.antt =====
-- What the limiter remembers of the attempts that it allowed.
use kasirinaja.Prelude.{
  ℕ, ◌+◌, ◌≤◌, Bool, Option, some, true, false, String, List, [], ◌∷◌, ◌++◌, ◌≡◌, refl, ap, ap₂,
  sym, ◌∙◌, lookup, insert, lookup-insert, get_or, length, leb, str_eq, arith, if◌then◌else◌,
}
use kasirinaja.Domain.{Time}
use kasirinaja.Http.Limiter.{AttemptLimiter, kept_attempts, allow}

kept-append :
    (window : ℕ) (now : Time) (xs ys : List Time)
    → kept_attempts window now (xs ++ ys)
      ≡ kept_attempts window now xs ++ kept_attempts window now ys
unfolding kept_attempts
kept-append window now [] ys = refl
kept-append window now (x ∷ xs) ys = ground (arith, kept-append window now xs ys)

-- What was dropped once would be dropped later.
pub kept-kept :
    (window : ℕ) (now later : Time) (xs : List Time)
    → now ≤ later
    → kept_attempts window later (kept_attempts window now xs) ≡ kept_attempts window later xs
unfolding kept_attempts
kept-kept window now later [] h = refl
kept-kept window now later (x ∷ xs) h = ground (arith, kept-kept window now later xs h)

pub length-kept :
    (window : ℕ) (now : Time) (xs : List Time) → length (kept_attempts window now xs) ≤ length xs
unfolding kept_attempts
length-kept window now [] = omega arith
length-kept window now (x ∷ xs) = ground (arith, length-kept window now xs)

length-snoc : (xs : List Time) (x : Time) → length (xs ++ (x ∷ [])) ≡ length xs + 1
length-snoc [] x = omega arith
length-snoc (y ∷ ys) x = ground (arith, length-snoc ys x)

-- the history of a client
abbrev pub history : String → AttemptLimiter → List Time
history key l = get_or (lookup key l.entries) []

-- The limiter remembers of a log whatever still counts from `last` on.
pub record IsLog (key : String) (log : List Time) (last : Time) (l : AttemptLimiter) : Type 0 where
  pub remembers :
      (now : Time)
      → last ≤ now
      → kept_attempts l.window now (history key l) ≡ kept_attempts l.window now log
  pub within : length (history key l) ≤ l.max

pub allow-ok :
    (k : String) (t : Time) (l : AttemptLimiter)
    → let kept = kept_attempts l.window t (history k l) in
      let (ok, l') = allow k t l in
      (l'.max ≡ l.max)
      × (l'.window ≡ l.window)
      × (ok ≡ (if leb l.max (length kept) then false else true))
      × (l'.entries
          ≡ insert k (if leb l.max (length kept) then kept else kept ++ (t ∷ [])) l.entries)
unfolding allow
allow-ok k t l = ground arith

get_or_if :
    (b : Bool) (kept : List Time) (found : Option (List Time))
    → get_or (if b then some kept else found) [] ≡ (if b then kept else get_or found [])
get_or_if true kept found = refl
get_or_if false kept found = refl

pub history-after :
    (key k : String) (t : Time) (l : AttemptLimiter) (kept : List Time)
    → (allow k t l).1.entries ≡ insert k kept l.entries
    → history key (allow k t l).1 ≡ (if str_eq k key then kept else history key l)
history-after key k t l kept e =
    ap (λ d. get_or (lookup key d) []) e
    ∙ ap (λ found. get_or found []) (lookup-insert key k kept l.entries)
    ∙ get_or_if (str_eq k key) kept (lookup key l.entries)

pub IsLog-other :
    (key k : String) (t : Time) (l : AttemptLimiter) (log : List Time) (last : Time)
    → IsLog key log last l
    → last ≤ t
    → str_eq k key ≡ false
    → IsLog key log t (allow k t l).1
IsLog-other key k t l log last h order other =
    let (max, window, _, e) = allow-ok k t l in
    let after = history-after key k t l _ e in
    let same : history key (allow k t l).1 ≡ history key l = rw other at after in
    record {
      remembers = λ now later.
          ap₂ (λ w xs. kept_attempts w now xs) window same
          ∙ h.remembers now (omega arith)
          ∙ ap (λ w. kept_attempts w now log) (sym window);
      within = rw (same, max) h.within;
    }

pub IsLog-refused :
    (key : String) (t : Time) (l : AttemptLimiter) (log : List Time) (last : Time)
    → IsLog key log last l
    → last ≤ t
    → history key (allow key t l).1 ≡ kept_attempts l.window t (history key l)
    → IsLog key log t (allow key t l).1
IsLog-refused key t l log last h order e =
    let (max, window, _, _) = allow-ok key t l in
    let fewer = length-kept l.window t (history key l) in
    let within = h.within in
    record {
      remembers = λ now later.
          ap₂ (λ w xs. kept_attempts w now xs) window e
          ∙ kept-kept l.window t now (history key l) later
          ∙ h.remembers now (omega arith)
          ∙ ap (λ w. kept_attempts w now log) (sym window);
      within = rw (e, max) (omega arith);
    }

pub IsLog-allowed :
    (key : String) (t : Time) (l : AttemptLimiter) (log : List Time) (last : Time)
    → IsLog key log last l
    → last ≤ t
    → leb l.max (length (kept_attempts l.window t (history key l))) ≡ false
    → history key (allow key t l).1 ≡ kept_attempts l.window t (history key l) ++ (t ∷ [])
    → IsLog key (log ++ (t ∷ [])) t (allow key t l).1
IsLog-allowed key t l log last h order room e =
    let (max, window, _, _) = allow-ok key t l in
    let kept = kept_attempts l.window t (history key l) in
    let longer = length-snoc kept t in
    record {
      remembers = λ now later.
          ap₂ (λ w xs. kept_attempts w now xs) window e
          ∙ kept-append l.window now kept (t ∷ [])
          ∙ ap (λ xs. xs ++ kept_attempts l.window now (t ∷ []))
              (kept-kept l.window t now (history key l) later ∙ h.remembers now (omega arith))
          ∙ sym (kept-append l.window now log (t ∷ []))
          ∙ ap (λ w. kept_attempts w now (log ++ (t ∷ []))) (sym window);
      within = rw (e, max) (ground arith);
    }
