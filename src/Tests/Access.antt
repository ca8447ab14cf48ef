-- ===== src/Tests/Access.antt =====
-- Log-ins, requests and the start of the server.
use kasirinaja.Prelude.{
  ℕ, ◌+◌, ◌*◌, ◌^◌, ◌<◌, ◌≤◌, ◌≡◌, ◌≢◌, ◌⊎◌, ◌↔◌, refl, arith, pos, true, false, String, none, some,
  [], ◌∷◌, lookup, str_eq, eq_iff, trim_space, to_lower, bytes, length, if◌then◌else◌, contains_any,
  has_suffix, contains,
}
use Prim.Native.String.{◌++◌ as ◌++ˢ◌}
use kasirinaja.Domain.{Time, LoginRequest, LoginResponse, CashierCreateRequest, CashierUser}
use kasirinaja.Store.{ok}
use kasirinaja.Memory.State.{Store}
use kasirinaja.Memory.Users.{create_user, list_users}
use kasirinaja.Http.Auth.Outside.{memory_users}
use kasirinaja.Http.Auth.{
  Credential, AuthManager, Auth, bootstrap_users, numeric_date, parse_token, token_key, login,
  create_cashier, account_name, new_auth_manager, validate_manager_pin, load_accounts,
}
use kasirinaja.Http.Auth.Session.{login_opens}
use kasirinaja.Http.Auth.Accounts.{create_cashier_adds}
use kasirinaja.Http.Auth.Accounts.Stored.{IsNamed}
use kasirinaja.Http.Auth.Accounts.Entry.{create_cashier-login}
use kasirinaja.Http.Auth.Pin.{validate_manager_pin_lem}
use kasirinaja.Http.Csrf.{
  Request, hour, generate_csrf_token, validate_csrf_token, hour_bucket, csrf_token_for_hour, unix,
  check_csrf, is_mutating, is_one_of, csrf_exempt_paths,
}
use kasirinaja.Http.Csrf.Window.{csrf_window}
use kasirinaja.Http.Routes.{
  handle_products, handle_csrf_token, handled, serve, serve_mux, routes, is_clean, exact_route,
  enter, require_roles, is_role_allowed, bearer_token,
}
use kasirinaja.Http.Routes.Roles.{MayUse, serve-MayUse, serve-check_csrf}
use kasirinaja.Start.{Config, known_pins, is_known, validate_security_config}
use kasirinaja.Start.Pins.{IsVaried, validate_security_config_iff}
use kasirinaja.Tests.Fixed.{Fixed}
use kasirinaja.Tests.Shop.{outside, shop}
use kasirinaja.Tests.Till.{formats}
use kasirinaja.Tests.Security.{
  crypt, crypt-IsBcrypt, tokens, tokens-IsJwt, digest, digest-IsHexHmac, write_claims, write_ones,
  write_text, write_time, read_claims, read_time, read_ones, read_text, ones,
}

abbrev salts : ℕ → String
salts _ = "salt"

abbrev ani : Credential
ani = record { password = "$2a$rahasia"; role = "cashier"; active = true; created = 100 }

-- One cashier, and tokens that live for two seconds.
abbrev door : Auth (Unit {0})
door = record {
  manager = record {
    secret = "secret";
    token_ttl = 2 * 10 ^ 9;
    manager_pin = "$2a$739154";
    users = ("ani", ani) ∷ [];
  };
  accounts = tt;
}

abbrev entry : LoginRequest
entry = record { username = " ani "; password = "rahasia" }

abbrev answer : LoginResponse
answer = record {
  access_token = write_claims (record {
    subject = "ani";
    issued_at = 0;
    expires_at = 2 * 10 ^ 9;
    issuer = "kasirinaja";
    role = "cashier";
  });
  role = "cashier";
  expires_at = formats.rfc3339 (2 * 10 ^ 9 + 900);
}

logs_in : login crypt none outside salts tokens formats entry door ≡ (ok answer, door)
unfolding login lookup trim_space
logs_in = refl

ani_named : trim_space entry.username ≢ ""
unfolding trim_space
ani_named = ground (arith, eq_iff "ani" "")

live : 5000 < numeric_date (outside.now 0 + door.manager.token_ttl)
unfolding numeric_date
live = omega arith

login_opens_example :
    (credential : Credential) × (lookup "ani" door.manager.users ≡ some credential)
    × (credential.active ≡ true)
    × (crypt.compare_hash_and_password credential.password "rahasia" ≡ true)
    × (answer.role ≡ credential.role)
    × (parse_token tokens 5000 door.manager answer.access_token
        ≡ ok (record { username = "ani"; role = credential.role }))
unfolding trim_space
login_opens_example =
    login_opens crypt none outside salts tokens tokens-IsJwt formats entry door 5000 logs_in
      ani_named live

-- An authentication that knows nobody yet, over the shop.
abbrev new_door : Auth (Store Fixed)
new_door = record {
  manager = record {
    secret = "secret";
    token_ttl = 2 * 10 ^ 9;
    manager_pin = "$2a$739154";
    users = [];
  };
  accounts = shop;
}

abbrev hire : CashierCreateRequest
hire = record { username = " Sari "; password = "rahasia" }

abbrev hired : CashierUser
hired = record { username = "sari"; role = "cashier"; active = true; created_at = 900 }

abbrev hired_door : Auth (Store Fixed)
hired_door =
    (create_cashier crypt (some (memory_users outside)) outside salts "salt" hire new_door).1

hires :
    create_cashier crypt (some (memory_users outside)) outside salts "salt" hire new_door
    ≡ (ok hired, hired_door)
unfolding create_cashier lookup trim_space to_lower memory_users list_users load_accounts bytes
    contains_any create_user
hires = refl

plain : account_name (account_name hire.username) ≡ account_name hire.username
unfolding account_name trim_space to_lower
plain = refl

typed : trim_space "sari " ≡ account_name hire.username
unfolding account_name trim_space to_lower
typed = refl

create_cashier-login_example :
    IsNamed hired_door.accounts
    × (response : LoginResponse) × (a : Auth (Store Fixed)) × (login crypt
          (some (memory_users outside))
          outside
          salts
          tokens
          formats
          (record { username = "sari "; password = "rahasia" })
          hired_door
        ≡ (ok response, a))
    × (response.role ≡ "cashier")
create_cashier-login_example =
    create_cashier-login crypt crypt-IsBcrypt tokens tokens-IsJwt formats outside outside salts
      salts "salt" "sari " hire new_door hires tt plain typed

create_cashier_adds_example :
    let a = bootstrap_users crypt salts (some (memory_users outside)) new_door in
    let known =
      lookup "sari"
        (create_cashier crypt
          (some (memory_users outside))
          outside
          salts
          "salt"
          hire
          new_door).1.manager.users in
    (known ≡ lookup "sari" a.manager.users)
    ⊎ ((lookup "sari" a.manager.users ≡ none)
        × ("sari" ≡ account_name hire.username)
        × (c : Credential) × (known ≡ some c)
        × (c.role ≡ "cashier"))
create_cashier_adds_example =
    create_cashier_adds crypt (some (memory_users outside)) outside salts "salt" hire new_door
      "sari"

-- A manager whose PIN was left blank.
abbrev blank_manager : AuthManager
blank_manager =
    (new_auth_manager {S = Unit {0}} crypt salts none "salt" "secret" (pos 0) "  " tt).manager

validate_manager_pin_lem_example :
    (trim_space " disabled" ≡ "disabled"
      → validate_manager_pin crypt blank_manager " disabled" ≡ true)
    × (trim_space " disabled" ≡ "" → validate_manager_pin crypt blank_manager " disabled" ≡ false)
unfolding trim_space
validate_manager_pin_lem_example =
    validate_manager_pin_lem crypt salts crypt-IsBcrypt none "salt" "secret" "  " " disabled"
      (pos 0) tt refl

abbrev noon : Time
noon = 12 * hour + 1800 * 10 ^ 9

csrf_window_example :
    (noon + hour ≤ noon + hour
      → validate_csrf_token digest "secret" (noon + hour) (generate_csrf_token digest "secret" noon)
        ≡ true)
    × (noon + 2 * hour ≤ noon + hour
        → validate_csrf_token digest "secret"
            (noon + hour)
            (generate_csrf_token digest "secret" noon)
          ≡ false)
csrf_window_example =
    csrf_window digest digest-IsHexHmac "secret" noon (noon + hour) (omega arith) (omega arith)

abbrev ask : Request
ask = record {
  method = "GET";
  path = "/api/v1/products";
  remote_addr = "";
  header = λ name. if str_eq name "Authorization" then "Bearer " ++ˢ answer.access_token else "";
}

ani_asks :
    serve tokens 5000 door.manager ask digest "csrf"
    ≡ handled handle_products (some (record { username = "ani"; role = "cashier" }))
unfolding serve check_csrf is_mutating serve_mux is_clean contains routes exact_route enter
    require_roles trim_space to_lower bearer_token parse_token token_key read_claims write_claims
    is_role_allowed has_suffix write_time write_ones write_text read_time read_ones read_text
ani_asks = refl

serve-MayUse_example :
    MayUse tokens 5000 door.manager ask handle_products
      (some (record { username = "ani"; role = "cashier" }))
serve-MayUse_example =
    serve-MayUse tokens 5000 door.manager ask digest "csrf" handle_products
      (some (record { username = "ani"; role = "cashier" })) ani_asks

-- the first second of the year 1970
abbrev epoch : Time
epoch = 62_135_596_800 * 10 ^ 9

abbrev poke : Request
poke = record {
  method = "POST";
  path = "/api/v1/auth/csrf-token";
  remote_addr = "";
  header = λ name. if str_eq name "X-CSRF-Token" then "00" else "";
}

poked : serve tokens epoch door.manager poke digest "csrf" ≡ handled handle_csrf_token none
unfolding serve check_csrf is_mutating is_one_of csrf_exempt_paths validate_csrf_token hour_bucket
    unix csrf_token_for_hour ones serve_mux is_clean contains routes exact_route enter trim_space
    has_suffix
poked = refl

changes : is_mutating poke.method ≡ true
unfolding is_mutating
changes = refl

serve-check_csrf_example :
    validate_csrf_token digest "csrf" epoch (trim_space (poke.header "X-CSRF-Token")) ≡ true
serve-check_csrf_example =
    serve-check_csrf tokens epoch door.manager poke digest "csrf" handle_csrf_token none poked
      changes (ground (arith, eq_iff poke.path "/api/v1/auth/login"))
      (ground (arith, eq_iff poke.path "/api/v1/sync/offline-transactions"))

abbrev strong : Config
strong = record { auth_secret = "0123456789abcdef0123456789abcdef"; manager_pin = "739154" }

validate_security_config_iff_example : (validate_security_config strong ≡ ok tt) ↔ (
    (32 ≤ length (bytes strong.auth_secret))
    × (6 ≤ length (bytes strong.manager_pin))
    × (is_known strong.manager_pin known_pins ≡ false)
    × IsVaried (bytes strong.manager_pin))
validate_security_config_iff_example = validate_security_config_iff strong
