-- ===== src/Http/Csrf.antt =====
-- backend/internal/httpapi/httpapi.go: the CSRF tokens, which a client sends back with every request
-- that changes something. HMAC-SHA256 in hexadecimal is
-- a parameter.
pub mod Window
use kasirinaja.Prelude.{
  ℕ, ◌-◌, ◌*◌, ◌/◌, ◌%◌, ◌^◌, ◌≡◌, ◌≢◌, ℤ, pos, sub_ℕ, sub64, Bool, true, false, not, ◌||◌, ◌&&◌,
  String, List, [], ◌∷◌, str_eq, trim_space, if◌then◌else◌,
}
use kasirinaja.Domain.{Time}

-- The parts of an `http.Request` that the guards read. A missing header is empty.
pub record Request : Type 0 where
  pub method : String
  pub path : String
  pub remote_addr : String
  pub header : String → String

abbrev pub hour : ℕ
hour = 3600 * 10 ^ 9

-- `Unix()`: seconds since the year 1970, which began that many seconds after the zero time
unfoldable pub unix : Time → ℤ
unix t = sub_ℕ (t / 10 ^ 9) 62_135_596_800

-- `now.Truncate(time.Hour).Unix()`
unfoldable pub hour_bucket : Time → ℤ
unfolding unix
hour_bucket now = unix (now - now % hour)

-- `hex.EncodeToString` of the HMAC-SHA256, under a secret, of the decimal digits of a number
abbrev pub HexHmac : Type 0
HexHmac = String → ℤ → String

unfoldable pub csrf_token_for_hour : HexHmac → String → ℤ → String
csrf_token_for_hour hex_hmac secret bucket = hex_hmac secret bucket

unfoldable pub generate_csrf_token : HexHmac → String → Time → String
generate_csrf_token hex_hmac secret now = csrf_token_for_hour hex_hmac secret (hour_bucket now)

unfoldable pub validate_csrf_token : HexHmac → String → Time → String → Bool
validate_csrf_token hex_hmac secret now token =
    let current_bucket = hour_bucket now in
    let prev_bucket = sub64 current_bucket (pos 3600) in
    if str_eq token ""
    then false
    else str_eq token (csrf_token_for_hour hex_hmac secret current_bucket)
      || str_eq token (csrf_token_for_hour hex_hmac secret prev_bucket)

unfoldable pub csrf_exempt_paths : List String
csrf_exempt_paths = "/api/v1/auth/login" ∷ "/api/v1/sync/offline-transactions" ∷ []

unfoldable pub is_one_of : String → List String → Bool
is_one_of s [] = false
is_one_of s (t ∷ rest) = str_eq s t || is_one_of s rest

-- The methods that change something.
unfoldable pub is_mutating : String → Bool
is_mutating method = str_eq method "POST" || str_eq method "PUT" || str_eq method "PATCH"

unfoldable pub check_csrf : HexHmac → String → Time → Request → Bool
check_csrf hex_hmac secret now r =
    if not (is_mutating r.method) || is_one_of r.path csrf_exempt_paths
    then true
    else validate_csrf_token hex_hmac secret now (trim_space (r.header "X-CSRF-Token"))

-- What the guards need of the HMAC: a code is hexadecimal digits, and two hours have two codes.
pub record IsHexHmac (hex_hmac : HexHmac) : Type 0 where
  pub filled : (secret : String) (b : ℤ) → hex_hmac secret b ≢ ""
  pub separate : (secret : String) (b c : ℤ) → hex_hmac secret b ≡ hex_hmac secret c → b ≡ c
