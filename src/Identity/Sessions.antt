-- ===== src/Identity/Sessions.antt =====
-- A token from `Login` (internal/domain/identity/auth_service.go) at the doors of the admin routes.
use Prim.Native.String.append
use Prim.Native.String.{◌++◌ as push_str}
use Prim.Native.Char.{code}
use mathlib.Core.Path.{subst}
use doki_core_backend.Prelude.{
  ℕ, ◌+◌, ◌≤◌, ◌≡◌, refl, ap, true, String, List, Option, none, some, arith, ◌==◌,
}
use doki_core_backend.Errors.{Err, Result, ok}
use doki_core_backend.Clock.{second}
use doki_core_backend.Access.{AuthenticatedUser}
use doki_core_backend.Identity.{User, Users}
use doki_core_backend.Identity.Service.{Crypto, login}
use doki_core_backend.Identity.Login.{Grants, MayLogin, Obtains, login-Grants}
use doki_core_backend.Identity.Tokens.{
  Jwt, JwtLaws, TokenIssuer, claims_of, generate_token, strip_prefix, authenticated, read_token,
  auth_middleware,
}

strip_prefix-append : (p s : String) → strip_prefix p (push_str p s) ≡ some s
unfolding strip_prefix
strip_prefix-append String.[] s = rw (append.nil s) refl
strip_prefix-append (String.◌∷◌ c p) s =
    let self : (code c == code c) ≡ true = ground arith in
    rw (append.cons c p s, strip_prefix-append p s, self) refl

-- The user that the routes see: the one of the row, with the properties assigned at the login.
abbrev pub session : User → List ℕ → AuthenticatedUser
session user properties = record {
  id = user.id;
  role = user.role;
  region = user.region;
  property_assignment = properties;
}

module _ (jwt : Jwt) (laws : JwtLaws jwt) (j : TokenIssuer) (t0 : ℕ) where
  token-session :
      (now : ℕ) (user : User) (properties : List ℕ) (token : String)
      → generate_token jwt j t0 user properties ≡ ok token
      → t0 ≤ now
      → now + second ≤ t0 + j.ttl
      → auth_middleware jwt j.secret now (push_str "Bearer " token) ≡ some (session user properties)
  unfolding generate_token auth_middleware read_token authenticated
  token-session now user properties token h from to = rw (strip_prefix-append "Bearer " token) (
      ap (λ r. authenticated r)
        (laws.reads_back j.secret (claims_of t0 j.ttl user properties) token now h
          (omega (arith, from)) (omega (arith, to))))

  token-expired :
      (now : ℕ) (user : User) (properties : List ℕ) (token : String)
      → generate_token jwt j t0 user properties ≡ ok token
      → t0 + j.ttl ≤ now
      → auth_middleware jwt j.secret now (push_str "Bearer " token) ≡ none
  unfolding generate_token auth_middleware read_token authenticated
  token-expired now user properties token h past = rw (strip_prefix-append "Bearer " token) (
      ap (λ r. authenticated r)
        (laws.expires j.secret (claims_of t0 j.ttl user properties) token now h
          (omega (arith, past))).1)

  -- What the configured issuer has made of the user and the properties that were read.
  granted_token :
      (crypto : Crypto) (db : Users) (identifier password token : String) (user : User)
      → crypto.issuer ≡ some (generate_token jwt j t0)
      → MayLogin crypto db identifier password token user
      → (properties : List ℕ) × Obtains db user properties
        × (generate_token jwt j t0 user properties ≡ ok token)
  granted_token crypto db identifier password token user configured
        (l, n, a, v, (properties, o, (issue, e, made))) =
      let same : issue ≡ generate_token jwt j t0 = cc in
      (
        properties,
        o,
        subst (λ (g : User → List ℕ → Result String). g user properties ≡ ok token) same made,
      )

  -- The token of a login opens the admin routes to the user of its row, with the role and the region
  -- of the row and the properties that the login has read, from then on until a second before its
  -- time is over; from the end of its time on it is refused. The properties are those assigned at
  -- the login, or only the first of them where the iteration over their rows has broken off.
  pub login-session :
      (crypto : Crypto) (ctx : Option Err) (identifier password token : String) (user : User)
      (db : Users) (now late : ℕ)
      → crypto.issuer ≡ some (generate_token jwt j t0)
      → (login crypto ctx identifier password db).0 ≡ ok (token, user)
      → t0 ≤ now
      → now + second ≤ t0 + j.ttl
      → t0 + j.ttl ≤ late
      → ((properties : List ℕ) × Obtains db user properties
          × (auth_middleware jwt j.secret now (push_str "Bearer " token)
              ≡ some (session user properties)))
        × (auth_middleware jwt j.secret late (push_str "Bearer " token) ≡ none)
  login-session crypto ctx identifier password token user db now late configured h from to past =
      let grants : Grants crypto db identifier password (ok (token, user)) =
        subst (λ (r : Result (String × User)). Grants crypto db identifier password r) h
          (login-Grants crypto ctx identifier password db) in
      let (properties, o, made) =
        granted_token crypto db identifier password token user configured grants in
      (
        (properties, o, token-session now user properties token made from to),
        token-expired late user properties token made past,
      )
