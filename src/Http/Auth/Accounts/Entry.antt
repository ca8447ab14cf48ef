-- ===== src/Http/Auth/Accounts/Entry.antt =====
-- A cashier that was created gets in.
use kasirinaja.Prelude.{
  ℕ, ◌+◌, ◌≡◌, refl, sym, ◌∙◌, ap, subst, true, false, String, Option, some, lookup, lookup-insert,
  str_eq, eq_iff, eq_refl, trim_space, arith, Bool-cases, inl, inr, All, has_prefix,
}
use kasirinaja.Domain.{Time, Env, LoginRequest, LoginResponse, CashierCreateRequest, CashierUser}
use kasirinaja.Store.{ok}
use kasirinaja.Service.Context.{Formats}
use kasirinaja.Memory.State.{Store}
use kasirinaja.Memory.Users.{create_user, list_users}
use kasirinaja.Http.Auth.Outside.{UserStore, memory_users, Bcrypt, IsBcrypt, Jwt, IsJwt}
use kasirinaja.Http.Auth.{
  Credential, Auth, bootstrap_users, account_name, verify_password, set_user, store_user, sign,
  numeric_date, login, create_cashier, is_password_hash,
}
use kasirinaja.Http.Auth.Accounts.{new_account, new_credential, create_cashier-IsCreated}
use kasirinaja.Http.Auth.Accounts.Reload.{Grants, Agrees, load_accounts-Grants}
use kasirinaja.Http.Auth.Accounts.Stored.{
  IsNamed, listed, bootstrap_users-IsNamed, create_user-Agrees,
}

pub hash-IsHash :
    (b : Bcrypt) (law : IsBcrypt b) (salt password hash : String)
    → b.generate_from_password salt password ≡ some hash
    → is_password_hash hash ≡ true
unfolding is_password_hash
hash-IsHash b law salt password hash h = rw (law.generate-prefix salt password hash h) refl

verify-hash :
    (b : Bcrypt) (law : IsBcrypt b) (salt password hash : String)
    → b.generate_from_password salt password ≡ some hash
    → str_eq (trim_space password) "" ≡ false
    → verify_password b hash password ≡ true
unfolding verify_password
verify-hash b law salt password hash h given =
    let filled : str_eq hash "" ≡ false = elim (Bool-cases (str_eq hash "")) [
      | inr e ↦ e
      | inl e ↦
          let empty : hash ≡ "" = (eq_iff hash "").0 e in
          let prefix : has_prefix "" "$2a$" ≡ true =
            subst (λ h. has_prefix h "$2a$" ≡ true) empty
              (law.generate-prefix salt password hash h) in
          absurd (cc)
    ] in
    rw (filled, given, hash-IsHash b law salt password hash h)
      (law.compare-generate salt password hash h)

module _ {S : Type 0} (b : Bcrypt) (store : Option (UserStore S)) (env : Env) (salts : ℕ → String)
    (j : Jwt) (law : IsJwt j) (formats : Formats) (request : LoginRequest) where
  -- a log-in to an active account with its password
  login-Opens :
      (a : Auth S) (c : Credential)
      → lookup (trim_space request.username) (bootstrap_users b salts store a).manager.users
        ≡ some c
      → verify_password b c.password request.password ≡ true
      → c.active ≡ true
      → (response : LoginResponse) × (a' : Auth S) × (login b store env salts j formats request a
          ≡ (ok response, a'))
        × (response.role ≡ c.role)
  unfolding login sign
  login-Opens a c known verified active =
      let a₁ = bootstrap_users b salts store a in
      let name = trim_space request.username in
      let (token, signed) =
        law.signs
          (record {
            subject = name;
            issued_at = numeric_date (env.now 1);
            expires_at = numeric_date (env.now 0 + a₁.manager.token_ttl);
            issuer = "kasirinaja";
            role = c.role;
          })
          a₁.manager.secret in
      (
        record {
          access_token = token;
          role = c.role;
          expires_at = formats.rfc3339 (env.now 0 + a₁.manager.token_ttl);
        },
        a₁,
        ground arith,
        refl,
      )

module _ {F : Type 0} (b : Bcrypt) (b_law : IsBcrypt b) where
  -- after the creation, reading the accounts again leaves the new cashier in place
  created-Grants :
      (env env' : Env) (salts salts' : ℕ → String) (hash name : String) (now : Time)
      (a a₂ a' : Auth (Store F))
      → store_user (some (memory_users env)) (new_account name hash now) a ≡ (ok tt, a₂)
      → a' ≡ set_user name (new_credential hash now) a₂
      → account_name name ≡ name
      → IsNamed a.accounts
      → is_password_hash hash ≡ true
      → IsNamed a'.accounts
        × Grants hash name
            (lookup name (bootstrap_users b salts' (some (memory_users env')) a').manager.users)
  unfolding bootstrap_users store_user set_user memory_users list_users
  created-Grants env env' salts salts' hash name now a a₂ a' stores after plain named hashed =
      let store = create_user env (new_account name hash now) a.accounts in
      let accounts : a'.accounts ≡ store.1 = ground arith in
      let (named', agree) =
        create_user-Agrees env name hash now a.accounts {s' = store.1} (ground arith) plain named in
      let granted : Grants hash name (lookup name a'.manager.users) = (
        new_credential hash now,
        ground (
          arith,
          eq_refl name,
          lookup-insert name name (new_credential hash now) a₂.manager.users,
        ),
        refl,
        refl,
        refl,
      ) in
      (
        subst IsNamed (sym accounts) named',
        load_accounts-Grants hash name b salts' (memory_users env') hashed 0 (listed a'.accounts) a'
            granted (subst (λ s. All (Agrees hash name) (listed s)) (sym accounts) agree),
      )

  module _ (j : Jwt) (j_law : IsJwt j) (formats : Formats) where
    -- A cashier whose account was created in a store that keeps every account under its name can
    -- log in with the password by the next call on the accounts, whenever that is, and with the
    -- role of a cashier, if the name, once it is trimmed and in lower case, stays as it is by
    -- trimming and lower case, and is typed so; it supposes that bcrypt accepts what it hashed and that signing a token does not fail. The
    -- store still keeps every account under its name.
    pub create_cashier-login :
        (env env' : Env) (salts salts' : ℕ → String) (salt typed : String)
        (request : CashierCreateRequest) (a : Auth (Store F)) {user : CashierUser}
        {a' : Auth (Store F)}
        → create_cashier b (some (memory_users env)) env salts salt request a ≡ (ok user, a')
        → IsNamed a.accounts
        → account_name (account_name request.username) ≡ account_name request.username
        → trim_space typed ≡ account_name request.username
        → IsNamed a'.accounts
          × (response : LoginResponse) × (a'' : Auth (Store F)) × (login b
                (some (memory_users env'))
                env'
                salts'
                j
                formats
                (record { username = typed; password = request.password })
                a'
              ≡ (ok response, a''))
          × (response.role ≡ "cashier")
    create_cashier-login env env' salts salts' salt typed request a {a' = a'} h named plain
          as_typed =
        let name = account_name request.username in
        let store = some (memory_users env) in
        let c = create_cashier-IsCreated b store env salts salt request a h in
        let (named', granted) =
          created-Grants env env' salts salts' c.hash name (env.now 0)
            (bootstrap_users b salts store a) c.stored a' c.stores c.after plain
            (bootstrap_users-IsNamed b salts env a named)
            (hash-IsHash b b_law salt request.password c.hash c.hashed) in
        let (credential, known, password, role, active) = granted in
        let verified = verify-hash b b_law salt request.password c.hash c.hashed c.password in
        let (response, a'', opened, given) =
          login-Opens b (some (memory_users env')) env' salts' j j_law formats
            (record { username = typed; password = request.password }) a' credential
            (ap
                (λ n.
                  lookup n (bootstrap_users b salts' (some (memory_users env')) a').manager.users)
                as_typed
              ∙ known)
            (ap (λ p. verify_password b p request.password) password ∙ verified) active in
        (named', response, a'', opened, given ∙ role)
