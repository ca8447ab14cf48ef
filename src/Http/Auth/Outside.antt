-- ===== src/Http/Auth/Outside.antt =====
-- What backend/internal/httpapi/auth.go takes from golang.org/x/crypto/bcrypt, from
-- github.com/golang-jwt/jwt and from its user store, which may be any implementation of the
-- interface `UserStore`.
use kasirinaja.Prelude.{◌<◌, ◌≡◌, Bool, true, String, Option, some, List, [], ◌∷◌, has_prefix}
use kasirinaja.Domain.{Time, Env, UserAccount}
use kasirinaja.Store.{Result, ok, Action}
use kasirinaja.Memory.State.{Store}
use kasirinaja.Memory.Users

pub record UserStore (S : Type 0) : Type 0 where
  pub create_user : UserAccount → Action S (Unit {0})
  pub list_users : Action S (List UserAccount)
  pub update_user_password : String → String → Action S (Unit {0})

-- `memory.Store` as a user store
unfoldable pub memory_users : {F : Type 0} → Env → UserStore (Store F)
memory_users env = record {
  create_user = Users.create_user env;
  list_users = Users.list_users;
  update_user_password = Users.update_user_password;
}

-- `GenerateFromPassword` draws a salt, which is an argument here.
pub record Bcrypt : Type 0 where
  pub generate_from_password : String → String → Option String
  pub compare_hash_and_password : String → String → Bool

-- A hash carries its version, and matches the password that it was made of.
pub record IsBcrypt (b : Bcrypt) : Type 0 where
  pub generate-prefix :
      (salt password hash : String)
      → b.generate_from_password salt password ≡ some hash
      → has_prefix hash "$2a$" ≡ true
  pub compare-generate :
      (salt password hash : String)
      → b.generate_from_password salt password ≡ some hash
      → b.compare_hash_and_password hash password ≡ true

-- `posCustomClaims`
pub record Claims : Type 0 where
  pub subject : String
  pub issued_at : Time
  pub expires_at : Time
  pub issuer : String
  pub role : String

pub data SigningMethod : Type 0 where
  hmac other : SigningMethod

-- `SignedString` of a method and claims under a secret, and `ParseWithClaims` with the function for
-- the key, the valid methods and the time, where `none` is an error or an invalid token.
pub record Jwt : Type 0 where
  pub signed_string : String → Claims → String → Result String
  pub parse_with_claims :
      (SigningMethod → Result String) → List String → Time → String → Option Claims

-- Signing under a secret does not fail, and a signed token that has not expired is read back under
-- the secret that signed it.
pub record IsJwt (j : Jwt) : Type 0 where
  pub signs :
      (claims : Claims) (secret : String)
      → (token : String) × (j.signed_string "HS256" claims secret ≡ ok token)
  pub parse-signed :
      (claims : Claims) (secret token : String) (now : Time) (key : SigningMethod → Result String)
      → j.signed_string "HS256" claims secret ≡ ok token
      → key hmac ≡ ok secret
      → now < claims.expires_at
      → j.parse_with_claims key ("HS256" ∷ []) now token ≡ some claims
