-- ===== src/Start/Pins.antt =====
-- What a manager PIN has that the server starts with.
use kasirinaja.Prelude.{
  ℕ, ◌+◌, ◌≤◌, ◌≡◌, ◌↔◌, refl, true, false, ◌||◌, String, List, [], ◌∷◌, bytes, length, ◌==◌, arith,
  All, if◌then◌else◌, Bool, Bool-cases, inl, inr,
}
use kasirinaja.Store.{ok, Result-cases}
use kasirinaja.Start.{
  Config, known_pins, is_known, same_as, all_same, sequential, is_sequential, validate_pin_strength,
  validate_security_config,
}

-- Every byte stands to the next one as `R` says.
abbrev pub Steps : (ℕ → ℕ → Type 0) → ℕ → List ℕ → Type 0
Steps R before [] = Unit
Steps R before (c ∷ cs) = R before c × Steps R c cs

-- Every byte is one more than the byte before it, or every byte one less.
abbrev pub IsAscending : ℕ → List ℕ → Type 0
IsAscending = Steps (λ before c. c ≡ before + 1)

abbrev pub IsDescending : ℕ → List ℕ → Type 0
IsDescending = Steps (λ before c. c + 1 ≡ before)

-- A run of bytes that has another byte than its first and is no ascending and no descending run.
abbrev pub IsVaried : List ℕ → Type 0
IsVaried [] = ⊥
IsVaried (c ∷ cs) = (¬ All (λ d. d ≡ c) cs) × (¬ IsAscending c cs) × (¬ IsDescending c cs)

same_as_iff : (c : ℕ) (cs : List ℕ) → (same_as c cs ≡ true) ↔ All (λ d. d ≡ c) cs
unfolding same_as
same_as_iff c [] = (λ _. tt, λ _. refl)
same_as_iff c (d ∷ cs) =
    let ih = same_as_iff c cs in
    (λ h. (ground arith, ih.0 (ground arith)), λ h. ground (arith, ih.1 h.1))

sequential-false :
    (c : ℕ) (cs : List ℕ) (up down : Bool)
    → (up ≡ false → (sequential c cs up down).0 ≡ false)
      × (down ≡ false → (sequential c cs up down).1 ≡ false)
unfolding sequential
sequential-false c [] up down = (λ h. h, λ h. h)
sequential-false c (d ∷ cs) up down =
    let ih =
      sequential-false d cs (if d == c + 1 then up else false)
        (if d + 1 == c then down else false) in
    (λ h. ih.0 (ground arith), λ h. ih.1 (ground arith))

IsAscending-iff :
    (c : ℕ) (cs : List ℕ) (down : Bool) → ((sequential c cs true down).0 ≡ true) ↔ IsAscending c cs
unfolding sequential
IsAscending-iff c [] down = (λ _. tt, λ _. refl)
IsAscending-iff c (d ∷ cs) down = elim (Bool-cases (d == c + 1)) [
  | inl next ↦
      let ih = IsAscending-iff d cs (if d + 1 == c then down else false) in
      (λ h. (ground arith, ih.0 (ground arith)), λ h. ground (arith, ih.1 h.1))
  | inr jump ↦
      let off = sequential-false d cs false (if d + 1 == c then down else false) in
      (λ h. absurd (ground (arith, off.0 refl)), λ h. absurd (ground arith))
]

IsDescending-iff :
    (c : ℕ) (cs : List ℕ) (up : Bool) → ((sequential c cs up true).1 ≡ true) ↔ IsDescending c cs
unfolding sequential
IsDescending-iff c [] up = (λ _. tt, λ _. refl)
IsDescending-iff c (d ∷ cs) up = elim (Bool-cases (d + 1 == c)) [
  | inl next ↦
      let ih = IsDescending-iff d cs (if d == c + 1 then up else false) in
      (λ h. (ground arith, ih.0 (ground arith)), λ h. ground (arith, ih.1 h.1))
  | inr jump ↦
      let off = sequential-false d cs (if d == c + 1 then up else false) false in
      (λ h. absurd (ground (arith, off.1 refl)), λ h. absurd (ground arith))
]

not_true : (b : Bool) → ¬ (b ≡ true) → b ≡ false
not_true true h = absurd (h refl)
not_true false h = refl

accepted_iff : (cs : List ℕ) → ((all_same cs || is_sequential cs) ≡ false) ↔ IsVaried cs
unfolding all_same is_sequential
accepted_iff [] = (λ h. absurd (ground arith), λ h. absurd h)
accepted_iff (c ∷ cs) =
    let (same, same') = same_as_iff c cs in
    let (up, up') = IsAscending-iff c cs true in
    let (down, down') = IsDescending-iff c cs true in
    (
      λ h. (
        λ k. absurd (ground (arith, same' k)),
        λ k. absurd (ground (arith, up' k)),
        λ k. absurd (ground (arith, down' k)),
      ),
      λ h.
          let not_same = not_true (same_as c cs) (λ e. h.0 (same e)) in
          let not_up = not_true _ (λ e. h.1 (up e)) in
          let not_down = not_true _ (λ e. h.2 (down e)) in rw (not_same, not_up, not_down) refl,
    )

validate_pin_strength_iff :
    (pin : String)
    → (validate_pin_strength pin ≡ ok tt)
      ↔ ((is_known pin known_pins ≡ false) × IsVaried (bytes pin))
unfolding validate_pin_strength
validate_pin_strength_iff pin =
    let known = is_known pin known_pins in
    let (varied, varied') = accepted_iff (bytes pin) in
    elim (Bool-cases (is_known pin known_pins)) [
      | inl common ↦ ((λ h. absurd (ground arith)), (λ h. absurd (ground arith)))
      | inr rare ↦
          ((λ h. (rare, varied (ground arith))), (λ h. let accepted = varied' h.1 in ground arith))
    ]

-- The server starts with a configuration exactly when the secret has 32 bytes at least and the PIN
-- six, is none of the known ones, has two different bytes, and is neither an ascending nor a
-- descending run.
pub validate_security_config_iff :
    (config : Config)
    → (validate_security_config config ≡ ok tt) ↔ (
        (32 ≤ length (bytes config.auth_secret))
        × (6 ≤ length (bytes config.manager_pin))
        × (is_known config.manager_pin known_pins ≡ false)
        × IsVaried (bytes config.manager_pin))
unfolding validate_security_config
validate_security_config_iff config =
    let (strong, strong') = validate_pin_strength_iff config.manager_pin in
    elim (Result-cases (validate_pin_strength config.manager_pin)) [
      | inl (u, passes) ↦ (
        (λ h. let (rare, varied) = strong passes in (ground arith, ground arith, rare, varied)),
        (λ h. ground arith),
      )
      | inr (e, weak) ↦ (
        (λ h. absurd (ground arith)),
        (λ h. let passes = strong' (h.2, h.3) in absurd (ground arith)),
      )
    ]
