-- ===== src/Http/Auth/Session.antt =====
-- Logging in, and what the token that a log-in gives stands for.
use kasirinaja.Prelude.{
  subst, ℕ, ◌+◌, ◌<◌, ◌≡◌, ◌≢◌, refl, ◌∙◌, ap, true, String, Option, some, lookup, eq_iff,
  trim_space, arith, Bool-cases, Option-cases, inl, inr,
}
use kasirinaja.Domain.{Time, Env, LoginRequest, LoginResponse}
use kasirinaja.Store.{ok, Result-cases}
use kasirinaja.Service.Context.{Formats}
use kasirinaja.Http.Auth.Outside.{UserStore, Bcrypt, Claims, Jwt, IsJwt}
use kasirinaja.Http.Auth.{
  Credential, AuthManager, Auth, verify_password, bootstrap_users, numeric_date, sign, token_key,
  parse_token, login,
}

-- What a log-in that succeeded has found.
pub record IsLogin {S : Type 0} (b : Bcrypt) (j : Jwt) (env : Env) (request : LoginRequest)
    (a : Auth S) (response : LoginResponse) (a' : Auth S) : Type 0 where
  pub credential : Credential
  pub known : lookup (trim_space request.username) a.manager.users ≡ some credential
  pub verified : verify_password b credential.password request.password ≡ true
  pub active : credential.active ≡ true
  pub signed :
      sign j
        (env.now 1)
        a.manager
        (trim_space request.username)
        credential.role
        (env.now 0 + a.manager.token_ttl)
      ≡ ok response.access_token
  pub role : response.role ≡ credential.role
  pub after : a' ≡ a

module _ {S : Type 0} (b : Bcrypt) (store : Option (UserStore S)) (env : Env) (salts : ℕ → String)
    (j : Jwt) (formats : Formats) (request : LoginRequest) where
  pub login-IsLogin :
      (a : Auth S) {response : LoginResponse} {a' : Auth S}
      → login b store env salts j formats request a ≡ (ok response, a')
      → IsLogin b j env request (bootstrap_users b salts store a) response a'
  unfolding login
  login-IsLogin a {response} h =
      let a₁ = bootstrap_users b salts store a in
      elim (Option-cases (lookup (trim_space request.username) a₁.manager.users)) [
        | inl missing ↦ absurd (ground arith)
        | inr (credential, known) ↦
            elim (Bool-cases (verify_password b credential.password request.password)) [
              | inr wrong ↦ absurd (ground arith)
              | inl verified ↦
                  elim (Result-cases (
                    sign j (env.now 1) a₁.manager (trim_space request.username) credential.role
                      (env.now 0 + a₁.manager.token_ttl))) [
                        | inr (e, failed) ↦ absurd (ground arith)
                        | inl (token, signed) ↦ record {
                          credential = credential;
                          known = known;
                          verified = verified;
                          active = ground arith;
                          signed = ground arith;
                          role = ground arith;
                          after = ground arith;
                        }
                      ]
            ]
      ]

verified-compare :
    (b : Bcrypt) (stored input : String)
    → verify_password b stored input ≡ true
    → b.compare_hash_and_password stored input ≡ true
unfolding verify_password
verified-compare b stored input h = ground arith

parse-sign :
    (j : Jwt) (law : IsJwt j) (manager : AuthManager) (issued now expires_at : Time)
    (username role : String) {token : String}
    → sign j issued manager username role expires_at ≡ ok token
    → username ≢ ""
    → now < numeric_date expires_at
    → parse_token j now manager token ≡ ok (record { username = username; role = role })
unfolding sign parse_token token_key
parse-sign j law manager issued now expires_at username role {token} h named live =
    let claims : Claims = record {
      subject = username;
      issued_at = numeric_date issued;
      expires_at = numeric_date expires_at;
      issuer = "kasirinaja";
      role = role;
    } in
    let parsed = law.parse-signed claims manager.secret token now (token_key manager) h refl live in
    ground (arith, eq_iff username "")

module _ {S : Type 0} (b : Bcrypt) (store : Option (UserStore S)) (env : Env) (salts : ℕ → String)
    (j : Jwt) (law : IsJwt j) (formats : Formats) (request : LoginRequest) where
  -- A log-in that succeeds found an active account under the trimmed name whose hash matches the
  -- password, and until it expires its token is read back as that name with the role of the
  -- account, if the name is not blank and tokens are read back as they were signed.
  pub login_opens :
      (a : Auth S) {response : LoginResponse} {a' : Auth S} (now : Time)
      → login b store env salts j formats request a ≡ (ok response, a')
      → trim_space request.username ≢ ""
      → now < numeric_date (env.now 0 + a'.manager.token_ttl)
      → (credential : Credential) × (lookup (trim_space request.username) a'.manager.users
          ≡ some credential)
        × (credential.active ≡ true)
        × (b.compare_hash_and_password credential.password request.password ≡ true)
        × (response.role ≡ credential.role)
        × (parse_token j now a'.manager response.access_token
            ≡ ok (record { username = trim_space request.username; role = credential.role }))
  login_opens a {response} {a'} now h named live =
      let found = login-IsLogin b store env salts j formats request a h in
      let managers = ap (λ (x : Auth S). x.manager) found.after in
      (
        found.credential,
        ap (λ (m : AuthManager). lookup (trim_space request.username) m.users) managers
            ∙ found.known,
        found.active,
        verified-compare b found.credential.password request.password found.verified,
        found.role,
        ap (λ m. parse_token j now m response.access_token) managers
            ∙ parse-sign j law (bootstrap_users b salts store a).manager (env.now 1) now
                (env.now 0 + (bootstrap_users b salts store a).manager.token_ttl)
                (trim_space request.username) found.credential.role found.signed named
                (subst (λ (m : AuthManager). now < numeric_date (env.now 0 + m.token_ttl)) managers
                  live),
      )
