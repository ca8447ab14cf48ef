-- ===== src/Store.antt =====
-- backend/internal/store/store.go: the errors of a repository, and a repository call as a function
-- from a state to a result and the state after it. What was written before an error stays written.
use kasirinaja.Prelude.{
  ◌≡◌, refl, ◌⊎◌, inl, inr, Bool, true, false, String, Option, none, some, List, [], ◌∷◌,
  if◌then◌else◌,
}

pub data Error : Type 0 where
  not_found insufficient_stock invalid_transaction : Error
  -- `fmt.Errorf("%w: …", err)`
  wrapped : Error → String → Error
  -- `fmt.Errorf` and `errors.New` with no wrapped error
  message : String → Error

-- `errors.Is(err, store.ErrNotFound)`
abbrev pub is_not_found : Error → Bool
is_not_found not_found = true
is_not_found (wrapped e _) = is_not_found e
is_not_found _ = false

-- `errors.Is(err, store.ErrInvalidTransaction)`
abbrev pub is_invalid_transaction : Error → Bool
is_invalid_transaction invalid_transaction = true
is_invalid_transaction (wrapped e _) = is_invalid_transaction e
is_invalid_transaction _ = false

pub data Result (A : Type 0) : Type 0 where
  ok : A → Result A
  err : Error → Result A

abbrev pub Action : Type 0 → Type 0 → Type 0
Action S A = S → Result A × S

module _ {S A : Type 0} where
  abbrev pub pure : A → Action S A
  pure a s = (ok a, s)

  abbrev pub raise : Error → Action S A
  raise e s = (err e, s)

  abbrev pub gets : (S → A) → Action S A
  gets f s = (ok (f s), s)

  abbrev pub lift : Result A → Action S A
  lift r s = (r, s)

  abbrev pub or_raise : Option A → Error → Action S A
  or_raise none e = raise e
  or_raise (some a) _ = pure a

infixl 5 ◌>>=◌ ◌>>◌
abbrev pub ◌>>=◌ : {S A B : Type 0} → Action S A → (A → Action S B) → Action S B
◌>>=◌ m f s = let (r, s') = m s in elim r [ ok a ↦ f a s' | err e ↦ raise e s' ]

abbrev pub ◌>>◌ : {S A B : Type 0} → Action S A → Action S B → Action S B
m >> k = m >>= λ _. k

module _ {S : Type 0} where
  abbrev pub raise_if : Bool → Error → Action S (Unit {0})
  raise_if c e s = (if c then err e else ok tt, s)

  abbrev pub modify : (S → S) → Action S (Unit {0})
  modify f s = (ok tt, f s)

-- A step that may fail, and a loop of such steps.
abbrev pub bind : {A B : Type 0} → Result A → (A → Result B) → Result B
bind (ok a) f = f a
bind (err e) _ = err e

unfoldable pub fold_result : {A B : Type 0} → (B → A → Result B) → B → List A → Result B
fold_result f b [] = ok b
fold_result f b (a ∷ rest) = bind (f b a) λ b'. fold_result f b' rest

pub Result-cases :
    {A : Type 0} (r : Result A) → ((a : A) × (r ≡ ok a)) ⊎ ((e : Error) × (r ≡ err e))
Result-cases (ok a) = inl (a, refl)
Result-cases (err e) = inr (e, refl)
