-- ===== src/Identity/Tokens.antt =====
-- The issuer of internal/platform/auth/jwt.go and `AuthMiddleware` of
-- internal/adapter/http/middleware/auth.go. The JWT library is a parameter, with its documented
-- behaviour as laws.
use Prim.Native.Char.{code}
use doki_core_backend.Prelude.{
  ℕ, zero, suc, ◌+◌, ◌*◌, ◌/◌, ◌≤◌, ◌<◌, ◌≡◌, String, List, Option, none, some, ◌==◌, if◌then◌else◌,
}
use doki_core_backend.Prelude.Int.{ℤ, pos, negsuc}
use doki_core_backend.Errors.{Err, Result, ok, err}
use doki_core_backend.Clock.{second}
use doki_core_backend.Access.{Role, AuthenticatedUser}
use doki_core_backend.Identity.{User}

-- `jwtCustomClaims` and `UserClaims`, which have the same fields and names in JSON. The three times
-- are in seconds.
pub record UserClaims : Type 0 where
  pub user_id : ℕ
  pub role : Role
  pub region : Option String
  pub property_assignment : List ℕ
  pub expires_at : ℕ
  pub issued_at : ℕ
  pub not_before : ℕ
  pub issuer : String

-- The library: `SignedString` with HS256, and `ParseWithClaims` at a time with a key function that
-- refuses methods other than HMAC.
pub record Jwt : Type 0 where
  pub signed_string : String → UserClaims → Result String
  pub parse_with_claims : String → ℕ → String → Result UserClaims

-- A signed token is read back under its secret from its first second on and before its last, and
-- is an error from then on.
pub record JwtLaws (jwt : Jwt) : Type 0 where
  pub reads_back :
      (secret : String) (claims : UserClaims) (token : String) (now : ℕ)
      → jwt.signed_string secret claims ≡ ok token
      → claims.not_before * second ≤ now
      → now < claims.expires_at * second
      → jwt.parse_with_claims secret now token ≡ ok claims
  pub expires :
      (secret : String) (claims : UserClaims) (token : String) (now : ℕ)
      → jwt.signed_string secret claims ≡ ok token
      → claims.expires_at * second ≤ now
      → (e : Err) × (jwt.parse_with_claims secret now token ≡ err e)

-- `JWTTokenIssuer`.
pub record TokenIssuer : Type 0 where
  pub secret : String
  pub ttl : ℕ

-- `ttl <= 0` means a day.
unfoldable pub ttl_of : ℤ → ℕ
ttl_of (pos zero) = 86400000000000
ttl_of (pos (suc n)) = suc n
ttl_of (negsuc n) = 86400000000000

-- `NewJWTTokenIssuer`.
abbrev pub new_jwt_token_issuer : String → ℤ → TokenIssuer
new_jwt_token_issuer secret ttl = record { secret = secret; ttl = ttl_of ttl }

-- `jwt.NewNumericDate` drops what is below a second.
abbrev pub claims_of : ℕ → ℕ → User → List ℕ → UserClaims
claims_of now ttl user properties = record {
  user_id = user.id;
  role = user.role;
  region = user.region;
  property_assignment = properties;
  expires_at = (now + ttl) / second;
  issued_at = now / second;
  not_before = now / second;
  issuer = "doki-auth-engine";
}

-- `GenerateToken`.
unfoldable pub generate_token : Jwt → TokenIssuer → ℕ → User → List ℕ → Result String
generate_token jwt j now user properties =
    jwt.signed_string j.secret (claims_of now j.ttl user properties)

-- `strings.HasPrefix` with `strings.TrimPrefix`.
unfoldable pub strip_prefix : String → String → Option String
strip_prefix String.[] s = some s
strip_prefix (String.◌∷◌ c p) String.[] = none
strip_prefix (String.◌∷◌ c p) (String.◌∷◌ d s) =
    let rest = strip_prefix p s in if code c == code d then rest else none

unfoldable pub authenticated : Result UserClaims → Option AuthenticatedUser
authenticated (err e) = none
authenticated (ok claims) = some (record {
  id = claims.user_id;
  role = claims.role;
  region = claims.region;
  property_assignment = claims.property_assignment;
})

unfoldable pub read_token : Jwt → String → ℕ → Option String → Option AuthenticatedUser
read_token jwt secret now none = none
read_token jwt secret now (some token) = authenticated (jwt.parse_with_claims secret now token)

-- `AuthMiddleware` on the header `Authorization`: the user of the context, and `none` for 401.
unfoldable pub auth_middleware : Jwt → String → ℕ → String → Option AuthenticatedUser
auth_middleware jwt secret now header = read_token jwt secret now (strip_prefix "Bearer " header)
