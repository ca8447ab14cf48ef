-- ===== src/Tests/Security.antt =====
-- Accounts, tokens and requests, with stand-ins for bcrypt, the tokens and the HMAC.
use kasirinaja.Prelude.{
  ℕ, zero, suc, ◌+◌, ◌*◌, ◌/◌, ◌%◌, ◌^◌, ◌≡◌, ◌≢◌, refl, sym, ◌∙◌, ap, subst, arith, ℤ, pos, negsuc,
  Bool, true, false, String, none, some, str_eq, eq_refl, has_prefix, ltb, if◌then◌else◌,
}
use Prim.Native.Char.{Char}
use Prim.Native.String.{◌++◌ as ◌++ˢ◌}
use text.Mathlib.TextPositions.{starts_with-append}
use kasirinaja.Domain.{Time}
use kasirinaja.Store.{ok}
use kasirinaja.Http.Auth.Outside.{Bcrypt, IsBcrypt, Claims, Jwt, IsJwt}
use kasirinaja.Http.Csrf.{HexHmac, IsHexHmac}

-- A hash that is the password behind its version.
abbrev pub crypt : Bcrypt
crypt = record {
  generate_from_password = λ salt password. some ("$2a$" ++ˢ password);
  compare_hash_and_password = λ hash password. str_eq hash ("$2a$" ++ˢ password);
}

pub crypt-IsBcrypt : IsBcrypt crypt
crypt-IsBcrypt = record {
  generate-prefix = λ salt password hash h.
      let e : ("$2a$" ++ˢ password) ≡ hash = cc in
      subst (λ s. has_prefix s "$2a$" ≡ true) e (starts_with-append "$2a$" password);
  compare-generate = λ salt password hash h.
      let e : ("$2a$" ++ˢ password) ≡ hash = cc in
      subst (λ s. str_eq s ("$2a$" ++ˢ password) ≡ true) e (eq_refl ("$2a$" ++ˢ password));
}

-- Tokens that write the claims out: numbers as ones, texts with a one before each character.
abbrev one : Char
one = "1"

abbrev nought : Char
nought = "0"

unfoldable pub write_ones : ℕ → String → String
write_ones zero rest = String.◌∷◌ nought rest
write_ones (suc n) rest = String.◌∷◌ one (write_ones n rest)

unfoldable pub read_ones : String → ℕ × String
read_ones String.[] = (0, String.[])
read_ones (String.◌∷◌ c s) =
    let (n, rest) = read_ones s in if str_eq (String.◌∷◌ c "") "1" then (suc n, rest) else (0, s)

read_ones-write : (n : ℕ) (rest : String) → read_ones (write_ones n rest) ≡ (n, rest)
unfolding read_ones write_ones
read_ones-write zero rest = refl
read_ones-write (suc n) rest = rw (read_ones-write n rest) refl

unfoldable pub write_text : String → String → String
write_text String.[] rest = String.◌∷◌ nought rest
write_text (String.◌∷◌ c s) rest = String.◌∷◌ one (String.◌∷◌ c (write_text s rest))

unfoldable pub read_text : String → String × String
read_text String.[] = (String.[], String.[])
read_text (String.◌∷◌ c String.[]) = (String.[], String.[])
read_text (String.◌∷◌ c (String.◌∷◌ d s)) =
    let (t, rest) = read_text s in
    if str_eq (String.◌∷◌ c "") "1" then (String.◌∷◌ d t, rest) else (String.[], String.◌∷◌ d s)

read_text-write : (t rest : String) → read_text (write_text t rest) ≡ (t, rest)
unfolding read_text write_text
read_text-write String.[] String.[] = refl
read_text-write String.[] (String.◌∷◌ d rest) = refl
read_text-write (String.◌∷◌ c s) rest = rw (read_text-write s rest) refl

-- A time as whole seconds and the rest.
unfoldable pub write_time : Time → String → String
write_time t rest = write_ones (t / 10 ^ 9) (write_ones (t % 10 ^ 9) rest)

unfoldable pub read_time : String → Time × String
read_time s =
    let (seconds, s') = read_ones s in
    let (nanos, rest) = read_ones s' in (seconds * 10 ^ 9 + nanos, rest)

read_time-write : (t : Time) (rest : String) → read_time (write_time t rest) ≡ (t, rest)
unfolding read_time write_time
read_time-write t rest =
    rw (read_ones-write (t / 10 ^ 9) (write_ones (t % 10 ^ 9) rest))
      (rw (read_ones-write (t % 10 ^ 9) rest) (ground arith))

unfoldable pub write_claims : Claims → String
write_claims c =
    write_time c.issued_at (
      write_time c.expires_at
        (write_text c.subject (write_text c.issuer (write_text c.role ("0")))))

unfoldable pub read_claims : String → Claims
read_claims s =
    let (issued_at, s₁) = read_time s in
    let (expires_at, s₂) = read_time s₁ in
    let (subject, s₃) = read_text s₂ in
    let (issuer, s₄) = read_text s₃ in
    let (role, _) = read_text s₄ in
    record {
      subject = subject;
      issued_at = issued_at;
      expires_at = expires_at;
      issuer = issuer;
      role = role;
    }

read_claims-write : (c : Claims) → read_claims (write_claims c) ≡ c
unfolding read_claims write_claims
read_claims-write c = simp (read_time-write, read_text-write)

-- The stand-in for the tokens: any secret will do.
abbrev pub tokens : Jwt
tokens = record {
  signed_string = λ alg claims secret. ok (write_claims claims);
  parse_with_claims = λ key methods now token.
      if ltb now (read_claims token).expires_at then some (read_claims token) else none;
}

pub tokens-IsJwt : IsJwt tokens
tokens-IsJwt = record {
  signs = λ claims secret. (write_claims claims, refl);
  parse-signed = λ claims secret token now key signed keyed live.
      let e : write_claims claims ≡ token = cc in
      let back : read_claims token ≡ claims = ap read_claims (sym e) ∙ read_claims-write claims in
      rw back (ground arith);
}

-- The stand-in for the HMAC: a number in ones.
abbrev first_one : String → Bool
first_one String.[] = false
first_one (String.◌∷◌ c s) = str_eq (String.◌∷◌ c "") "1"

unfoldable pub ones : ℕ → String
ones zero = String.◌∷◌ nought String.[]
ones (suc n) = String.◌∷◌ one (ones n)

ones-inj : (m n : ℕ) → ones m ≡ ones n → m ≡ n
unfolding ones
ones-inj zero zero h = refl
ones-inj zero (suc n) h = let p : false ≡ true = ap first_one h in absurd (cc)
ones-inj (suc m) zero h = let p : true ≡ false = ap first_one h in absurd (cc)
ones-inj (suc m) (suc n) h = ap suc (ones-inj m n (cc))

abbrev pub digest : HexHmac
digest secret (pos n) = String.◌∷◌ nought (ones n)
digest secret (negsuc n) = String.◌∷◌ one (ones n)

digest-separate : (secret : String) (b c : ℤ) → digest secret b ≡ digest secret c → b ≡ c
digest-separate secret (pos m) (pos n) h = ap pos (ones-inj m n (cc))
digest-separate secret (negsuc m) (negsuc n) h = ap negsuc (ones-inj m n (cc))
digest-separate secret (pos m) (negsuc n) h = let p : false ≡ true = ap first_one h in absurd (cc)
digest-separate secret (negsuc m) (pos n) h = let p : true ≡ false = ap first_one h in absurd (cc)

digest-filled : (secret : String) (b : ℤ) → digest secret b ≢ ""
digest-filled secret (pos n) h = cc
digest-filled secret (negsuc n) h = cc

pub digest-IsHexHmac : IsHexHmac digest
digest-IsHexHmac = record { filled = digest-filled; separate = digest-separate }
