-- ===== src/Http/Auth/Accounts.antt =====
-- Accounts of cashiers: who is created, who is left alone, and that a new cashier gets in.
pub mod Reload
pub mod Stored
pub mod Entry
use kasirinaja.Prelude.{
  ℕ, ◌+◌, ◌<◌, ◌≡◌, ◌≢◌, ◌⊎◌, refl, sym, ◌∙◌, ap, Bool, true, false, ◌||◌, String, Option, none,
  some, lookup, lookup-insert, is_some, str_eq, eq_iff, trim_space, arith, if◌then◌else◌,
  Bool-cases, Option-cases, inl, inr, List, [], ◌∷◌, ltb, length, bytes, contains_any,
}
use kasirinaja.Domain.{Time, Env, CashierCreateRequest, CashierUser, UserAccount}
use kasirinaja.Store.{Error, Result, ok, err, Result-cases}
use kasirinaja.Http.Auth.Outside.{UserStore, Bcrypt}
use kasirinaja.Http.Auth.{
  Credential, AuthManager, Auth, bootstrap_users, account_name, set_user, store_user,
  create_cashier,
}

-- The account of a new cashier, and the credential for it.
abbrev pub new_account : String → String → Time → UserAccount
new_account username hash now = record {
  username = username;
  password = hash;
  role = "cashier";
  active = true;
  created_at = now;
}

abbrev pub new_credential : String → Time → Credential
new_credential hash now = record { password = hash; role = "cashier"; active = true; created = now }

-- What a creation that succeeded has found and done.
pub record IsCreated {S : Type 0} (b : Bcrypt) (store : Option (UserStore S)) (salt : String)
    (now : Time) (request : CashierCreateRequest) (a : Auth S) (a' : Auth S) : Type 0 where
  pub hash : String
  pub hashed : b.generate_from_password salt request.password ≡ some hash
  pub fresh : lookup (account_name request.username) a.manager.users ≡ none
  pub password : str_eq (trim_space request.password) "" ≡ false
  pub stored : Auth S
  pub stores :
      store_user store (new_account (account_name request.username) hash now) a ≡ (ok tt, stored)
  pub after : a' ≡ set_user (account_name request.username) (new_credential hash now) stored

module _ {S : Type 0} (b : Bcrypt) (store : Option (UserStore S)) (env : Env) (salts : ℕ → String)
    (salt : String) (request : CashierCreateRequest) where
  pub create_cashier-IsCreated :
      (a : Auth S) {user : CashierUser} {a' : Auth S}
      → create_cashier b store env salts salt request a ≡ (ok user, a')
      → IsCreated b store salt (env.now 0) request (bootstrap_users b salts store a) a'
  unfolding create_cashier
  create_cashier-IsCreated a h =
      let a₁ = bootstrap_users b salts store a in
      elim (Option-cases (b.generate_from_password salt request.password)) [
        | inl failed ↦ absurd (ground arith)
        | inr (hash, hashed) ↦
            let call =
              store_user store (new_account (account_name request.username) hash (env.now 0)) a₁ in
            elim (Result-cases call.0) [
              | inr (e, refused) ↦ absurd (ground arith)
              | inl (u, stores) ↦ record {
                hash = hash;
                hashed = hashed;
                fresh = ground arith;
                password = ground arith;
                stored = call.1;
                stores = ground arith;
                after = ground arith;
              }
            ]
      ]

pub store_user-manager :
    {S : Type 0} (store : Option (UserStore S)) (account : UserAccount) (a : Auth S)
    → (store_user store account a).1.manager ≡ a.manager
unfolding store_user
store_user-manager none account a = refl
store_user-manager (some users) account a = refl

module _ {S : Type 0} (b : Bcrypt) (store : Option (UserStore S)) (env : Env) (salts : ℕ → String)
    (salt : String) (request : CashierCreateRequest) where
  create_cashier-err :
      (a : Auth S) {e : Error} {a' : Auth S}
      → create_cashier b store env salts salt request a ≡ (err e, a')
      → a'.manager ≡ (bootstrap_users b salts store a).manager
  unfolding create_cashier
  create_cashier-err a h =
      let a₁ = bootstrap_users b salts store a in
      elim (Option-cases (b.generate_from_password salt request.password)) [
        | inl failed ↦ ground arith
        | inr (hash, hashed) ↦
            let account = new_account (account_name request.username) hash (env.now 0) in
            let same = store_user-manager store account a₁ in
            elim (Result-cases (store_user store account a₁).0) [
              | inr (e', refused) ↦ ground arith
              | inl (u, stores) ↦ ground arith
            ]
      ]

  created_users :
      (name hash : String) (now : Time) (a a₂ a' : Auth S) (key : String)
      → store_user store (new_account name hash now) a ≡ (ok tt, a₂)
      → a' ≡ set_user name (new_credential hash now) a₂
      → lookup key a'.manager.users
        ≡ (if str_eq name key then some (new_credential hash now) else lookup key a.manager.users)
  unfolding set_user
  created_users name hash now a a₂ a' key stores after =
      let same = store_user-manager store (new_account name hash now) a in
      let there = lookup-insert key name (new_credential hash now) a₂.manager.users in ground arith

  -- Creating a cashier, whether it succeeds or not, changes nothing of the accounts that the
  -- authentication knew or has just read, and what it adds is one cashier under a name that had no
  -- account.
  pub create_cashier_adds :
      (a : Auth S) (name : String)
      → let a₁ = bootstrap_users b salts store a in
        let known = lookup name (create_cashier b store env salts salt request a).1.manager.users in
        (known ≡ lookup name a₁.manager.users)
        ⊎ ((lookup name a₁.manager.users ≡ none)
            × (name ≡ account_name request.username)
            × (c : Credential) × (known ≡ some c)
            × (c.role ≡ "cashier"))
  create_cashier_adds a name =
      let (r, a') = create_cashier b store env salts salt request a in
      let a₁ = bootstrap_users b salts store a in
      elim (Result-cases (create_cashier b store env salts salt request a).0) [
        | inr (e, refused) ↦
            let same = create_cashier-err a {e = e} {a' = a'} (ground arith) in
            inl (ap (λ (m : AuthManager). lookup name m.users) same)
        | inl (user, created) ↦
            let c =
              create_cashier-IsCreated b store env salts salt request a {user = user} {a' = a'}
                (ground arith) in
            let key = account_name request.username in
            let there = created_users key c.hash (env.now 0) a₁ c.stored a' name c.stores c.after in
            elim (Bool-cases (str_eq key name)) [
              | inr other ↦ inl (ground arith)
              | inl same ↦
                  let equal : key ≡ name = (eq_iff key name).0 same in
                  inr (
                    ap (λ k. lookup k a₁.manager.users) (sym equal) ∙ c.fresh,
                    sym equal,
                    new_credential c.hash (env.now 0),
                    ground arith,
                    refl,
                  )
            ]
      ]
