-- ===== src/Http/Auth/Pin.antt =====
-- The manager PIN, which allows manual overrides, voids and refunds.
use kasirinaja.Prelude.{
  ℕ, ℤ, ◌≡◌, refl, ◌∙◌, true, false, String, Option, none, some, List, [], ◌∷◌, str_eq, trim_space,
  arith, if◌then◌else◌, Bool-cases, inl, inr,
}
use kasirinaja.Domain.{UserAccount}
use kasirinaja.Store.{Result-cases}
use kasirinaja.Http.Auth.Outside.{UserStore, Bcrypt, IsBcrypt}
use kasirinaja.Http.Auth.{
  AuthManager, Auth, load_account, load_accounts, set_user, bootstrap_users, new_auth_manager,
  validate_manager_pin, is_password_hash,
}
use kasirinaja.Http.Auth.Accounts.Entry.{hash-IsHash}

-- The PIN that is in force for what the configuration says, "disabled" where it says nothing.
abbrev pub pin_in_force : String → String
pin_in_force pin = if str_eq (trim_space pin) "" then "disabled" else trim_space pin

pin_in_force_ne : (pin : String) → str_eq (pin_in_force pin) "" ≡ false
pin_in_force_ne pin = elim (Bool-cases (str_eq (trim_space pin) "")) [
  | inl blank ↦ rw blank refl
  | inr given ↦ rw given given
]

validate-hash :
    (b : Bcrypt) (manager : AuthManager) (typed pin hash : String)
    → manager.manager_pin ≡ hash
    → trim_space typed ≡ pin
    → is_password_hash hash ≡ true
    → b.compare_hash_and_password hash pin ≡ true
    → str_eq pin "" ≡ false
    → validate_manager_pin b manager typed ≡ true
unfolding validate_manager_pin
validate-hash b manager typed pin hash e t h c n = rw (e, t, h, n) c

validate-blank :
    (b : Bcrypt) (manager : AuthManager) (typed : String)
    → trim_space typed ≡ ""
    → validate_manager_pin b manager typed ≡ false
unfolding validate_manager_pin
validate-blank b manager typed blank = rw blank refl

module _ {S : Type 0} (b : Bcrypt) (salts : ℕ → String) where
  load_accounts-manager_pin :
      (store : UserStore S) (i : ℕ) (accounts : List UserAccount) (a : Auth S)
      → (load_accounts b salts store i accounts a).manager.manager_pin ≡ a.manager.manager_pin
  unfolding load_accounts load_account set_user
  load_accounts-manager_pin store i [] a = refl
  load_accounts-manager_pin store i (account ∷ accounts) a =
      load_accounts-manager_pin store _ accounts (load_account b salts store i account a)
      ∙ ground arith

  bootstrap_users-manager_pin :
      (store : Option (UserStore S)) (a : Auth S)
      → (bootstrap_users b salts store a).manager.manager_pin ≡ a.manager.manager_pin
  unfolding bootstrap_users
  bootstrap_users-manager_pin none a = refl
  bootstrap_users-manager_pin (some store) a = elim (Result-cases (store.list_users a.accounts).0) [
    | inl (accounts, e) ↦
        let same =
          load_accounts-manager_pin store 0 accounts
            (record a { accounts = (store.list_users a.accounts).1 }) in
        ground arith
    | inr (x, e) ↦ ground arith
  ]

  manager_pin-new :
      (store : Option (UserStore S)) (salt secret pin : String) (ttl : ℤ) (s : S) {hash : String}
      → b.generate_from_password salt (pin_in_force pin) ≡ some hash
      → (new_auth_manager b salts store salt secret ttl pin s).manager.manager_pin ≡ hash
  unfolding new_auth_manager
  manager_pin-new store salt secret pin ttl s h = bootstrap_users-manager_pin store _ ∙ ground arith

  -- If bcrypt hashes it, the PIN in force is accepted with any space around it, and it is the text
  -- "disabled" where the configured PIN is blank; a blank input is refused.
  pub validate_manager_pin_lem :
      (law : IsBcrypt b) (store : Option (UserStore S)) (salt secret pin typed : String) (ttl : ℤ)
      (s : S) {hash : String}
      → b.generate_from_password salt (pin_in_force pin) ≡ some hash
      → let manager = (new_auth_manager b salts store salt secret ttl pin s).manager in
        (trim_space typed ≡ pin_in_force pin → validate_manager_pin b manager typed ≡ true)
        × (trim_space typed ≡ "" → validate_manager_pin b manager typed ≡ false)
  validate_manager_pin_lem law store salt secret pin typed ttl s {hash} hashed = (
    λ same.
        validate-hash b (new_auth_manager b salts store salt secret ttl pin s).manager typed
          (pin_in_force pin) hash (manager_pin-new store salt secret pin ttl s hashed) same
          (hash-IsHash b law salt (pin_in_force pin) hash hashed)
          (law.compare-generate salt (pin_in_force pin) hash hashed) (pin_in_force_ne pin),
    λ blank.
        validate-blank b (new_auth_manager b salts store salt secret ttl pin s).manager typed blank,
  )
