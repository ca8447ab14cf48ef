-- ===== src/Start.antt =====
-- backend/cmd/server/main.go: the configuration that the server refuses to start with. The record
-- has the fields of backend/internal/config/config.go that the check reads.
pub mod Pins
use kasirinaja.Prelude.{
  ℕ, ◌+◌, Bool, true, false, ◌&&◌, ◌||◌, String, List, [], ◌∷◌, str_eq, bytes, length, ltb, ◌==◌,
  if◌then◌else◌,
}
use kasirinaja.Store.{Result, ok, err, message, wrapped}

pub record Config : Type 0 where
  pub auth_secret : String
  pub manager_pin : String

abbrev pub known_pins : List String
known_pins =
    "123456" ∷ "654321" ∷ "000000" ∷ "111111" ∷ "222222" ∷ "333333" ∷ "444444" ∷ "555555" ∷ "666666"
    ∷ "777777" ∷ "888888" ∷ "999999" ∷ "121212" ∷ "112233" ∷ "123123" ∷ []

unfoldable pub is_known : String → List String → Bool
is_known pin [] = false
is_known pin (known ∷ rest) = str_eq pin known || is_known pin rest

-- the loop over `pin[i] != pin[0]`
unfoldable pub same_as : ℕ → List ℕ → Bool
same_as first [] = true
same_as first (c ∷ cs) = (c == first) && same_as first cs

unfoldable pub all_same : List ℕ → Bool
unfolding same_as
all_same [] = true
all_same (c ∷ cs) = same_as c cs

-- the loop over `diff`, from the byte before, with `ascending` and `descending`
unfoldable pub sequential : ℕ → List ℕ → Bool → Bool → Bool × Bool
sequential before [] ascending descending = (ascending, descending)
sequential before (c ∷ cs) ascending descending =
    sequential c cs (if c == before + 1 then ascending else false)
      (if c + 1 == before then descending else false)

unfoldable pub is_sequential : List ℕ → Bool
unfolding sequential
is_sequential [] = true
is_sequential (c ∷ cs) =
    let (ascending, descending) = sequential c cs true true in ascending || descending

unfoldable pub validate_pin_strength : String → Result (Unit {0})
validate_pin_strength pin =
    if is_known pin known_pins
    then err (message "common PIN not allowed")
    else if all_same (bytes pin)
    then err (message "all-same-digit PIN not allowed")
    else if is_sequential (bytes pin)
    then err (message "sequential PIN not allowed")
    else ok tt

unfoldable pub validate_security_config : Config → Result (Unit {0})
validate_security_config config =
    if ltb (length (bytes config.auth_secret)) 32
    then err (message "AUTH_SECRET must be set and at least 32 characters")
    else if ltb (length (bytes config.manager_pin)) 6
    then err (message "MANAGER_PIN must be set and at least 6 digits")
    else elim (validate_pin_strength config.manager_pin) [
      | ok u ↦ ok u
      | err e ↦ err (wrapped e "MANAGER_PIN is too weak")
    ]
