-- ===== src/Http/Auth/Accounts/Reload.antt =====
-- `bootstrapUsers` once an account is there: it finds the account as it is.
use kasirinaja.Prelude.{
  ℕ, suc, ◌≡◌, ◌∙◌, true, String, Option, some, lookup, lookup-insert, insert, ap, if◌then◌else◌,
  str_eq, eq_iff, arith, Bool-cases, inl, inr, List, [], ◌∷◌, All,
}
use kasirinaja.Domain.{UserAccount}
use kasirinaja.Http.Auth.Outside.{UserStore, Bcrypt}
use kasirinaja.Http.Auth.{
  Credential, Auth, account_name, load_account, load_accounts, upgrade_password, set_user,
  is_password_hash, credential_of,
}

upgrade_password-hash :
    {S : Type 0} (b : Bcrypt) (salts : ℕ → String) (store : UserStore S) (i : ℕ)
    (username password : String) (s : S)
    → is_password_hash password ≡ true
    → upgrade_password b salts store i username password s ≡ (password, s)
unfolding upgrade_password
upgrade_password-hash b salts store i username password s h = ground arith

module _ (hash name : String) where
  -- an active cashier with this hash
  abbrev pub Grants : Option Credential → Type 0
  Grants known =
      (c : Credential) × (known ≡ some c)
      × (c.password ≡ hash)
      × (c.role ≡ "cashier")
      × (c.active ≡ true)

  -- An account of that name is the cashier's.
  abbrev pub Agrees : UserAccount → Type 0
  Agrees account =
      account_name account.username ≡ name
      → (account.password ≡ hash) × (account.role ≡ "cashier") × (account.active ≡ true)

  module _ {S : Type 0} (b : Bcrypt) (salts : ℕ → String) (store : UserStore S)
      (hashed : is_password_hash hash ≡ true) where
    load_account-Grants :
        (i : ℕ) (account : UserAccount) (a : Auth S)
        → Grants (lookup name a.manager.users)
        → Agrees account
        → Grants (lookup name (load_account b salts store i account a).manager.users)
    unfolding load_account set_user credential_of
    load_account-Grants i account a (c, e, p, r, t) agrees =
        let username = account_name account.username in
        elim (Bool-cases (str_eq username "")) [
          | inl blank ↦ rw blank (c, e, p, r, t)
          | inr named ↦ elim (Bool-cases (str_eq username name)) [
            | inl same ↦
                let (p', r', t') = agrees ((eq_iff username name).0 same) in
                let kept : upgrade_password b salts store i username account.password a.accounts
                    ≡ (account.password, a.accounts) =
                  upgrade_password-hash b salts store i username account.password a.accounts
                    (ap is_password_hash p' ∙ hashed) in
                (
                  credential_of account.password account,
                  ground (arith, found account.password),
                  p',
                  r',
                  t',
                )
            | inr other ↦ (
              c,
              ground (
                arith,
                found (upgrade_password b salts store i username account.password a.accounts).0,
              ),
              p,
              r,
              t,
            )
          ]
        ]
      where
        found :
            (password : String)
            → lookup name (
                insert
                  (account_name account.username)
                  (credential_of password account)
                  a.manager.users)
              ≡ (if str_eq (account_name account.username) name
                  then some (credential_of password account)
                  else lookup name a.manager.users)
        found password =
            lookup-insert name (account_name account.username) (credential_of password account)
              a.manager.users

    pub load_accounts-Grants :
        (i : ℕ) (accounts : List UserAccount) (a : Auth S)
        → Grants (lookup name a.manager.users)
        → All Agrees accounts
        → Grants (lookup name (load_accounts b salts store i accounts a).manager.users)
    unfolding load_accounts
    load_accounts-Grants i [] a g h = g
    load_accounts-Grants i (account ∷ accounts) a g h =
        load_accounts-Grants (suc i) accounts (load_account b salts store i account a)
          (load_account-Grants i account a g h.0) h.1
