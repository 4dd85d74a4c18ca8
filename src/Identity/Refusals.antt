-- ===== src/Identity/Refusals.antt =====
-- How the handler of a login (internal/adapter/http/v1/auth_handler.go) answers one that
-- internal/domain/identity/auth_service.go refuses.
use mathlib.Core.Path.{subst}
use text.Mathlib.Text.{◌==◌ as str_eq}
use doki_core_backend.Prelude.{
  ◌≡◌, ◌⊎◌, inl, inr, refl, sym, ap, true, false, not, ◌||◌, String, List, [], ◌∷◌, none, some,
  arith, Bool-cases,
}
use doki_core_backend.Errors.{sentinel, Result, ok, err, identity_unauthorized}
use doki_core_backend.Identity.{User, Users}
use doki_core_backend.Identity.Text.{trim_space}
use doki_core_backend.Identity.Service.{Crypto, checked, find_login, login_trimmed, login}
use doki_core_backend.Identity.Api.{login_status, handle_login}
use doki_core_backend.Identity.Login.{Listed, named_by, find_user-Listed, Gets, find_login-Gets}

-- No account that the identifier, trimmed, names is active and has a hash that the password fits.
abbrev pub NoAccount : Crypto → String → String → List User → Type 0
NoAccount crypto identifier password [] = Unit
NoAccount crypto identifier password (u ∷ rows) =
    (named_by (trim_space identifier) u ≡ true
      → (u.is_active ≡ false) ⊎ (crypto.verifies u.password_hash password ≡ false))
    × NoAccount crypto identifier password rows

NoAccount-Listed :
    (crypto : Crypto) (identifier password : String) (rows : List User) (u : User)
    → NoAccount crypto identifier password rows
    → Listed u rows
    → named_by (trim_space identifier) u ≡ true
    → (u.is_active ≡ false) ⊎ (crypto.verifies u.password_hash password ≡ false)
NoAccount-Listed crypto identifier password [] u h l n = elim l [ ]
NoAccount-Listed crypto identifier password (v ∷ rows) u h (inl e) n =
    subst
      (λ (w : User).
        named_by (trim_space identifier) w ≡ true
        → (w.is_active ≡ false) ⊎ (crypto.verifies w.password_hash password ≡ false))
      (sym e) h.0 n
NoAccount-Listed crypto identifier password (v ∷ rows) u h (inr l) n =
    NoAccount-Listed crypto identifier password rows u h.1 l n

checked-refuses :
    (crypto : Crypto) (db : Users) (identifier password : String) (out : Result User × Users)
    → NoAccount crypto identifier password db.rows
    → Gets (named_by (trim_space identifier)) db out
    → (checked crypto password out.0 out.1).0 ≡ err (sentinel identity_unauthorized)
unfolding checked
checked-refuses crypto db identifier password (err e, db1) h g = refl
checked-refuses crypto db identifier password (ok user, db1) h g =
    let found = find_user-Listed (named_by (trim_space identifier)) db.rows user g.0 in
    let refuses : (not user.is_active || not (crypto.verifies user.password_hash password)) ≡ true =
      elim (NoAccount-Listed crypto identifier password db.rows user h found.0 found.1) [
        | inl a ↦ ground (arith, a)
        | inr v ↦ ground (arith, v)
      ] in
    rw refuses refl

-- Whatever the database does: a login whose identifier names no active account with a hash that the
-- password fits is answered with 500, and never with 401.
pub refused_login_is_500 :
    (crypto : Crypto) (identifier password : String) (db : Users)
    → NoAccount crypto identifier password db.rows
    → (handle_login crypto none (some (identifier, password)) db).0 ≡ 500
unfolding handle_login login_status login login_trimmed
refused_login_is_500 crypto identifier password db h =
    elim (Bool-cases (str_eq (trim_space identifier) "" || str_eq password "")) [
      | inl blank ↦ rw blank refl
      | inr full ↦ rw full (
          ap login_status (
            checked-refuses crypto db identifier password (find_login (trim_space identifier) db) h
              (find_login-Gets (trim_space identifier) db)))
    ]
