-- ===== src/Http/Auth.antt =====
-- backend/internal/httpapi/auth.go: accounts, log-in, tokens and the manager PIN.
pub mod Outside
pub mod Session
pub mod Accounts
pub mod Pin
use kasirinaja.Prelude.{
  ℕ, suc, ◌+◌, ◌-◌, ◌*◌, ◌%◌, ◌^◌, ℤ, pos, pos_part, leb_ℤ, Bool, true, false, not, ◌||◌, ◌&&◌,
  String, Option, none, some, List, [], ◌∷◌, Dict, lookup, insert, is_some, str_eq, str_lt,
  has_prefix, bytes, contains_any, length, ltb, sort_by, filter, map, trim_space, to_lower,
  if◌then◌else◌,
}
use kasirinaja.Domain.{
  Time, Env, LoginRequest, LoginResponse, Actor, CashierCreateRequest, CashierUser, UserAccount,
}
use kasirinaja.Store.{
  Result, ok, err, message, Action, pure, gets, lift, or_raise, raise_if, modify, ◌>>=◌, ◌>>◌,
}
use kasirinaja.Service.Context.{Formats}
use kasirinaja.Http.Auth.Outside.{UserStore, Bcrypt, Claims, SigningMethod, hmac, other, Jwt}

pub record Credential : Type 0 where
  pub password : String
  pub role : String
  pub active : Bool
  pub created : Time

pub record AuthManager : Type 0 where
  pub secret : String
  pub token_ttl : ℕ
  pub manager_pin : String
  pub users : Dict Credential

-- The manager with the state of its user store.
pub record Auth (S : Type 0) : Type 0 where
  pub manager : AuthManager
  pub accounts : S

unfoldable pub is_password_hash : String → Bool
is_password_hash value =
    has_prefix value "$2a$" || has_prefix value "$2b$" || has_prefix value "$2y$"

unfoldable pub verify_password : Bcrypt → String → String → Bool
unfolding is_password_hash
verify_password b stored input =
    if str_eq stored "" || str_eq (trim_space input) "" || not (is_password_hash stored)
    then false
    else b.compare_hash_and_password stored input

-- The name under which an account is kept.
unfoldable pub account_name : String → String
account_name username = to_lower (trim_space username)

unfoldable pub credential_of : String → UserAccount → Credential
credential_of password account = record {
  password = password;
  role = account.role;
  active = account.active;
  created = account.created_at;
}

-- `a.users[username] = …`
unfoldable pub set_user : {S : Type 0} → String → Credential → Auth S → Auth S
set_user username credential a = record a {
  manager = record a.manager { users = insert username credential a.manager.users };
}

module _ {S : Type 0} (b : Bcrypt) (salts : ℕ → String) where
  -- The password as a hash; a password in plain text is hashed in the user store, too.
  unfoldable pub upgrade_password : UserStore S → ℕ → String → String → S → String × S
  unfolding is_password_hash
  upgrade_password store i username password s =
      if is_password_hash password
      then (password, s)
      else elim (b.generate_from_password (salts i) password) [
        | none ↦ (password, s)
        | some hashed ↦ (hashed, (store.update_user_password username hashed s).1)
      ]

  unfoldable pub load_account : UserStore S → ℕ → UserAccount → Auth S → Auth S
  unfolding account_name credential_of set_user
  load_account store i account a =
      let username = account_name account.username in
      let (password, accounts) = upgrade_password store i username account.password a.accounts in
      if str_eq username ""
      then a
      else set_user username (credential_of password account) (record a { accounts = accounts })

  unfoldable pub load_accounts : UserStore S → ℕ → List UserAccount → Auth S → Auth S
  load_accounts store i [] a = a
  load_accounts store i (account ∷ accounts) a =
      load_accounts store (suc i) accounts (load_account store i account a)

  unfoldable pub bootstrap_users : Option (UserStore S) → Auth S → Auth S
  bootstrap_users none a = a
  bootstrap_users (some store) a =
      let (listed, accounts) = store.list_users a.accounts in
      let a' : Auth S = record a { accounts = accounts } in
      elim listed [ ok users ↦ load_accounts store 0 users a' | err _ ↦ a' ]

  unfoldable pub new_auth_manager : Option (UserStore S) → String → String → ℤ → String → S → Auth S
  new_auth_manager store salt secret token_ttl manager_pin s =
      let pin = if str_eq (trim_space manager_pin) "" then "disabled" else trim_space manager_pin in
      bootstrap_users store (record {
        manager = record {
          secret = if str_eq secret "" then "dev-change-me" else secret;
          token_ttl = if leb_ℤ token_ttl (pos 0) then 8 * 3600 * 10 ^ 9 else pos_part token_ttl;
          manager_pin = elim (b.generate_from_password salt pin) [
            | none ↦ pin
            | some hashed ↦ hashed
          ];
          users = [];
        };
        accounts = s;
      })

-- `NewNumericDate`: whole seconds
unfoldable pub numeric_date : Time → Time
numeric_date t = t - t % 10 ^ 9

unfoldable pub sign : Jwt → Time → AuthManager → String → String → Time → Result String
unfolding numeric_date
sign j now manager username role expires_at =
    j.signed_string "HS256"
      (record {
        subject = username;
        issued_at = numeric_date now;
        expires_at = numeric_date expires_at;
        issuer = "kasirinaja";
        role = role;
      })
      manager.secret

-- The key for a token is the secret, if its method is an HMAC.
unfoldable pub token_key : AuthManager → SigningMethod → Result String
token_key manager hmac = ok manager.secret
token_key manager other = err (message "unexpected signing method")

unfoldable pub parse_token : Jwt → Time → AuthManager → String → Result Actor
unfolding token_key
parse_token j now manager token =
    elim (j.parse_with_claims (token_key manager) ("HS256" ∷ []) now token) [
      | none ↦ err (message "invalid or expired token")
      | some claims ↦
          if str_eq claims.subject ""
          then err (message "invalid token subject")
          else ok (record { username = claims.subject; role = claims.role })
    ]

unfoldable pub validate_manager_pin : Bcrypt → AuthManager → String → Bool
unfolding is_password_hash
validate_manager_pin b manager pin =
    let input = trim_space pin in
    if str_eq input "" || not (is_password_hash manager.manager_pin)
    then false
    else b.compare_hash_and_password manager.manager_pin input

-- `a.userStore.CreateUser`, where there is a user store
unfoldable pub store_user :
    {S : Type 0} → Option (UserStore S) → UserAccount → Action (Auth S) (Unit {0})
store_user store account a = elim store [
  | none ↦ (ok tt, a)
  | some users ↦ let (r, s) = users.create_user account a.accounts in (r, record a { accounts = s })
]

module _ {S : Type 0} (b : Bcrypt) (store : Option (UserStore S)) (env : Env)
    (salts : ℕ → String) where
  unfoldable pub login : Jwt → Formats → LoginRequest → Action (Auth S) LoginResponse
  unfolding verify_password sign bootstrap_users
  login j formats request = do
    modify (bootstrap_users b salts store)
    let username = trim_space request.username
    known ← gets (λ a. lookup username a.manager.users)
    credential ← or_raise known (message "invalid credentials")
    raise_if (not (verify_password b credential.password request.password))
        (message "invalid credentials")
    raise_if (not credential.active) (message "account is inactive")
    manager ← gets (λ a. a.manager)
    let expires_at = env.now 0 + manager.token_ttl
    token ← lift (sign j (env.now 1) manager username credential.role expires_at)
    pure (record {
      access_token = token;
      role = credential.role;
      expires_at = formats.rfc3339 expires_at;
    })

  unfoldable pub create_cashier : String → CashierCreateRequest → Action (Auth S) CashierUser
  unfolding account_name store_user set_user bootstrap_users
  create_cashier salt request = do
    modify (bootstrap_users b salts store)
    let username = account_name request.username
    raise_if (str_eq username "" || ltb (length (bytes username)) 4)
        (message "username must be at least 4 characters")
    raise_if (contains_any username " \t\r\n") (message "username must not contain spaces")
    raise_if (str_eq (trim_space request.password) "" || ltb (length (bytes request.password)) 6)
        (message "password must be at least 6 characters")
    known ← gets (λ a. lookup username a.manager.users)
    raise_if (is_some known) (message "username already exists")
    let now = env.now 0
    hash ←
        or_raise (b.generate_from_password salt request.password)
          (message "failed to hash password")
    store_user store (record {
      username = username;
      password = hash;
      role = "cashier";
      active = true;
      created_at = now;
    })
    modify (
        set_user username
          (record { password = hash; role = "cashier"; active = true; created = now }))
    pure (record { username = username; role = "cashier"; active = true; created_at = now })

  unfoldable pub list_cashiers : Action (Auth S) (List CashierUser)
  unfolding bootstrap_users
  list_cashiers = do
    modify (bootstrap_users b salts store)
    gets λ a.
        sort_by (λ c d. str_lt c.username d.username)
          (map
            (λ (e : String × Credential). record {
              username = e.0;
              role = e.1.role;
              active = e.1.active;
              created_at = e.1.created;
            })
            (filter (λ (e : String × Credential). str_eq e.1.role "cashier") a.manager.users))
