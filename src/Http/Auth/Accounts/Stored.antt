-- ===== src/Http/Auth/Accounts/Stored.antt =====
-- The accounts of the in-memory store, as the authentication reads and writes them.
use kasirinaja.Prelude.{
  ℕ, suc, ◌≡◌, ◌≢◌, ◌⊎◌, refl, sym, ◌∙◌, ap, subst, true, ◌||◌, String, none, some, Dict, lookup,
  insert, values, All-insert, All-lookup, ne_of_lookup-none, str_eq, trim_space, arith, Bool-cases,
  Option-cases, inl, inr, List, [], ◌∷◌, All, sort_by, All-sort_by, str_lt,
}
use kasirinaja.Domain.{Time, Env, or_now, UserAccount}
use kasirinaja.Store.{ok}
use kasirinaja.Memory.State.{Store}
use kasirinaja.Memory.Users.{create_user, list_users, update_user_password}
use kasirinaja.Http.Auth.Outside.{memory_users, Bcrypt}
use kasirinaja.Http.Auth.{
  Auth, bootstrap_users, account_name, load_account, load_accounts, upgrade_password, set_user,
  is_password_hash,
}
use kasirinaja.Http.Auth.Accounts.{new_account}
use kasirinaja.Http.Auth.Accounts.Reload.{Agrees}

abbrev pub Named : String × UserAccount → Type 0
Named e = account_name e.1.username ≡ e.0

module _ {F : Type 0} where
  -- Every account is kept under its name.
  abbrev pub IsNamed : Store F → Type 0
  IsNamed s = All Named s.users_by_username

  -- what `list_users` gives
  abbrev pub listed : Store F → List UserAccount
  listed s = sort_by (λ a b. str_lt a.username b.username) (values s.users_by_username)

  update_user_password-users :
      (name password : String) (s : Store F)
      → let users = (update_user_password name password s).1.users_by_username in
        (users ≡ s.users_by_username)
        ⊎ ((user : UserAccount) × (lookup (account_name name) s.users_by_username ≡ some user)
            × (users
                ≡ insert
                    (account_name name)
                    (record user { password = password })
                    s.users_by_username))
  unfolding update_user_password account_name
  update_user_password-users name password s =
      elim (Option-cases (lookup (account_name name) s.users_by_username)) [
        | inl missing ↦ inl (ground arith)
        | inr (user, known) ↦
            elim (Bool-cases (str_eq (account_name name) "" || str_eq (trim_space password) "")) [
              | inl blank ↦ inl (ground arith)
              | inr given ↦ inr (user, known, ground arith)
            ]
      ]

  update_user_password-IsNamed :
      (name password : String) (s : Store F)
      → IsNamed s
      → IsNamed (update_user_password name password s).1
  update_user_password-IsNamed name password s h =
      elim (update_user_password-users name password s) [
        | inl same ↦ subst (All Named) (sym same) h
        | inr (user, known, written) ↦ subst (All Named) (sym written) (
            All-insert Named (account_name name) (record user { password = password })
              s.users_by_username
              (All-lookup Named (account_name name) user s.users_by_username h known) h)
      ]

  module _ (b : Bcrypt) (salts : ℕ → String) (env : Env) where
    upgrade_password-IsNamed :
        (i : ℕ) (name password : String) (s : Store F)
        → IsNamed s
        → IsNamed (upgrade_password b salts (memory_users env) i name password s).1
    unfolding upgrade_password memory_users
    upgrade_password-IsNamed i name password s h = elim (Bool-cases (is_password_hash password)) [
      | inl hashed ↦ rw hashed h
      | inr plain ↦ elim (Option-cases (b.generate_from_password (salts i) password)) [
        | inl failed ↦ rw (plain, failed) h
        | inr (hash, made) ↦ rw (plain, made) (update_user_password-IsNamed name hash s h)
      ]
    ]

    load_account-IsNamed :
        (i : ℕ) (account : UserAccount) (a : Auth (Store F))
        → IsNamed a.accounts
        → IsNamed (load_account b salts (memory_users env) i account a).accounts
    unfolding load_account set_user
    load_account-IsNamed i account a h =
        let name = account_name account.username in
        elim (Bool-cases (str_eq name "")) [
          | inl blank ↦ rw blank h
          | inr named ↦ rw named (upgrade_password-IsNamed i name account.password a.accounts h)
        ]

    load_accounts-IsNamed :
        (i : ℕ) (accounts : List UserAccount) (a : Auth (Store F))
        → IsNamed a.accounts
        → IsNamed (load_accounts b salts (memory_users env) i accounts a).accounts
    unfolding load_accounts
    load_accounts-IsNamed i [] a h = h
    load_accounts-IsNamed i (account ∷ accounts) a h =
        load_accounts-IsNamed (suc i) accounts (load_account b salts (memory_users env) i account a)
          (load_account-IsNamed i account a h)

    -- reading the accounts keeps their names
    pub bootstrap_users-IsNamed :
        (a : Auth (Store F))
        → IsNamed a.accounts
        → IsNamed (bootstrap_users b salts (some (memory_users env)) a).accounts
    unfolding bootstrap_users memory_users list_users
    bootstrap_users-IsNamed a h = load_accounts-IsNamed 0 (listed a.accounts) a h

  -- Storing a new account adds it under its name, where no account was.
  pub create_user-users :
      (env : Env) (name hash : String) (now : Time) (s : Store F) {s' : Store F}
      → create_user env (new_account name hash now) s ≡ (ok tt, s')
      → account_name name ≡ name
      → (user : UserAccount) × (lookup name s.users_by_username ≡ none)
        × (s'.users_by_username ≡ insert name user s.users_by_username)
        × (user.username ≡ name)
        × (user.password ≡ hash)
        × (user.role ≡ "cashier")
        × (user.active ≡ true)
  unfolding create_user account_name
  create_user-users env name hash now s h plain = (
    record (new_account name hash now) { username = name; created_at = or_now env 0 now },
    ground arith,
    ground arith,
    refl,
    refl,
    refl,
    refl,
  )

-- Accounts under other names say nothing of this one.
others-Agrees :
    (hash name : String) (d : Dict UserAccount)
    → All Named d
    → All (λ e. e.0 ≢ name) d
    → All (λ e. Agrees hash name e.1) d
others-Agrees hash name [] h k = tt
others-Agrees hash name ((key, user) ∷ d) h k =
    (λ same. absurd (k.0 (sym h.0 ∙ same)), others-Agrees hash name d h.1 k.1)

All-values :
    (P : UserAccount → Type 0) (d : Dict UserAccount) → All (λ e. P e.1) d → All P (values d)
All-values P [] h = tt
All-values P ((key, user) ∷ d) h = (h.0, All-values P d h.1)

module _ {F : Type 0} where
  -- Once it is stored, the new account is the only one of its name.
  pub create_user-Agrees :
      (env : Env) (name hash : String) (now : Time) (s : Store F) {s' : Store F}
      → create_user env (new_account name hash now) s ≡ (ok tt, s')
      → account_name name ≡ name
      → IsNamed s
      → IsNamed s' × All (Agrees hash name) (listed s')
  create_user-Agrees env name hash now s {s'} h plain named =
      let (user, fresh, written, same, p, r, t) = create_user-users env name hash now s h plain in
      let old = s.users_by_username in
      let agree : All (λ e. Agrees hash name e.1) (insert name user old) =
        All-insert (λ e. Agrees hash name e.1) name user old (λ _. (p, r, t))
          (others-Agrees hash name old named (ne_of_lookup-none name old fresh)) in
      (
        subst (All Named) (sym written)
            (All-insert Named name user old (ap account_name same ∙ plain) named),
        All-sort_by (Agrees hash name) (λ a b. str_lt a.username b.username)
            (values s'.users_by_username)
            (All-values (Agrees hash name) s'.users_by_username
              (subst (All λ e. Agrees hash name e.1) (sym written) agree)),
      )
