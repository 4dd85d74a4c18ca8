-- ===== src/Identity/Tests.antt =====
-- Registration and login at concrete inputs.
use text.Mathlib.Text.{◌==◌ as str_eq}
use text.Mathlib.TextEquality.{eq_iff}
use doki_core_backend.Prelude.{List, ◌≡◌, refl, inl, inr, true, [], ◌∷◌, none, some}
use doki_core_backend.Errors.{ok}
use doki_core_backend.Access.{hotel_manager, customer}
use doki_core_backend.Identity.{
  User, Users, query, get_user, find_user, get_by_phone, row_of, scan_user,
}
use doki_core_backend.Prelude.{
  ℕ, ◌≤◌, ◌<◌, ◌*◌, String, ltb, if◌then◌else◌, arith, sym, ap, lt→ltb, Bool-cases, ◌∙◌,
}
use mathlib.Core.Path.{subst}
use doki_core_backend.Columns.{is_assignable_or_null}
use native.Mathlib.Decide.{ℕ_discrete}
use doki_core_backend.Identity.Service.{with_assignments, issued}
use doki_core_backend.Identity.{
  get_user_property_assignments, assigned_to, assignments_read, arrived_ids, create_user,
  user_clashes, user_fits,
}
use doki_core_backend.Errors.{Result, err, plain}
use doki_core_backend.Access.{Role}
use doki_core_backend.Identity.Tokens.{
  UserClaims, Jwt, JwtLaws, TokenIssuer, claims_of, generate_token, auth_middleware,
}
use Prim.Native.String.{◌++◌ as push_str}
use doki_core_backend.Identity.Sessions.{session, login-session}
use doki_core_backend.Identity.Text.{trim_space, contains_at}
use doki_core_backend.Identity.Service.{Crypto, login, login_trimmed, find_login, checked}
use doki_core_backend.Identity.Registering.{quiet, register-login}
use doki_core_backend.Identity.Service.{
  RegisterRequest, role_or_customer, register_user, register_error,
}
use doki_core_backend.Access.{hq_admin}
use doki_core_backend.Identity.Api.{handle_login, handle_register}
use doki_core_backend.Identity.Refusals.{refused_login_is_500}
use doki_core_backend.Identity.Login.{Grants, Obtains, login-Grants, invalid_registration_is_500}

-- A hash that is the password itself, and one token for all.
abbrev plain_crypto : Crypto
plain_crypto = record {
  hash_of = λ password. ok password;
  verifies = λ hash password. str_eq hash password;
  issuer = some (λ user properties. ok "token");
}

abbrev abebe : User
abebe = record {
  id = 3;
  phone_number = "0911";
  email = none;
  password_hash = "sesame-1";
  full_name = "Abebe";
  role = hotel_manager;
  region = none;
  is_active = true;
}

abbrev users : Users
users = record { rows = abebe ∷ []; assignments = (3, 5) ∷ []; arrives = 0; faults = [] }

login-Grants_example :
    Grants plain_crypto users " 0911" "sesame-1"
      (login plain_crypto none " 0911" "sesame-1" users).0
login-Grants_example = login-Grants plain_crypto none " 0911" "sesame-1" users

refused_login_is_500_example :
    (handle_login plain_crypto none (some ("0911", "wrong")) users).0 ≡ 500
refused_login_is_500_example =
    refused_login_is_500 plain_crypto "0911" "wrong" users (λ named. inr refl, tt)

invalid_registration_is_500_example :
    handle_register plain_crypto none 9
      (some (record {
        phone_number = "0912";
        email = none;
        password = "short";
        full_name = "Sara";
        role = customer;
        region = none;
      }))
      users
    ≡ (500, users)
invalid_registration_is_500_example =
    invalid_registration_is_500 plain_crypto 9
      (record {
        phone_number = "0912";
        email = none;
        password = "short";
        full_name = "Sara";
        role = customer;
        region = none;
      })
      users (inr (inl refl))

String-discrete : Discrete String
String-discrete s t = elim (Bool-cases (str_eq s t)) [
  | inl same ↦ yes ((eq_iff s t).0 same)
  | inr other ↦ no (λ e. cc (sym other ∙ (eq_iff s t).1 e))
]

Role-discrete : Discrete Role
Role-discrete = hlevel String-discrete

UserClaims-discrete : Discrete UserClaims
UserClaims-discrete = hlevel (ℕ_discrete, String-discrete)

-- The claims of Abebe's token at second 100.
abbrev claims : UserClaims
claims = claims_of 100000000000 60000000000 abebe (5 ∷ [])

-- A library that signs these claims alone, and reads its token up to their last second.
unfoldable signed : {c : UserClaims} → Dec (c ≡ claims) → Result String
signed (yes same) = ok "token"
signed (no other) = err (plain "")

unfoldable parsed : ℕ → Result UserClaims
parsed now = if ltb now 160000000000 then ok claims else err (plain "")

abbrev one_token : Jwt
one_token = record {
  signed_string = λ secret c. signed (UserClaims-discrete c claims);
  parse_with_claims = λ secret now token. parsed now;
}

signed-claims :
    {c : UserClaims} (d : Dec (c ≡ claims)) (token : String) → signed d ≡ ok token → c ≡ claims
unfolding signed
signed-claims (yes same) token h = same
signed-claims (no other) token h = cc

signs : (d : Dec (claims ≡ claims)) → signed d ≡ ok "token"
unfolding signed
signs (yes same) = refl
signs (no other) = absurd (other refl)

one_token-laws : JwtLaws one_token
unfolding parsed
one_token-laws = record {
  reads_back = λ secret c token now h from to.
      (let same : c ≡ claims = signed-claims (UserClaims-discrete c claims) token h in
        let early : now < 160000000000 =
          omega (arith, subst (λ (k : UserClaims). now < k.expires_at * 1000000000) same to) in
        rw (lt→ltb _ _ early) (ap (λ (k : UserClaims). ok k) (sym same)));
  expires = λ secret c token now h past.
      (let same : c ≡ claims = signed-claims (UserClaims-discrete c claims) token h in
        let late : 160000000000 ≤ now =
          omega (arith, subst (λ (k : UserClaims). k.expires_at * 1000000000 ≤ now) same past) in
        (plain "", ground (arith, late)));
}

abbrev issuer : TokenIssuer
issuer = record { secret = "s"; ttl = 60000000000 }

abbrev jwt_crypto : Crypto
jwt_crypto = record {
  hash_of = λ password. ok password;
  verifies = λ hash password. str_eq hash password;
  issuer = some (generate_token one_token issuer 100000000000);
}

logs_in : (login jwt_crypto none "0911" "sesame-1" users).0 ≡ ok ("token", abebe)
unfolding login login_trimmed find_login checked get_by_phone get_user find_user scan_user row_of
    query trim_space contains_at generate_token with_assignments get_user_property_assignments
    issued assigned_to assignments_read arrived_ids
logs_in = ap (λ r. issued abebe (some r)) (signs (UserClaims-discrete claims claims))

login-session_example :
    ((properties : List ℕ) × Obtains users abebe properties
      × (auth_middleware one_token "s" 130000000000 (push_str "Bearer " "token")
          ≡ some (session abebe properties)))
    × (auth_middleware one_token "s" 170000000000 (push_str "Bearer " "token") ≡ none)
login-session_example =
    login-session one_token one_token-laws issuer 100000000000 jwt_crypto none "0911" "sesame-1"
      "token" abebe users 130000000000 170000000000 refl logs_in (omega arith) (omega arith)
      (omega arith)

-- A request for the highest role.
abbrev ambitious : RegisterRequest
ambitious = record {
  phone_number = " 0912";
  email = none;
  password = "sesame-22";
  full_name = "Sara";
  role = hq_admin;
  region = none;
}

accepted :
    (handle_register plain_crypto none 9 (some ambitious) (quiet (abebe ∷ []) ((3, 5) ∷ []))).0
    ≡ 201
unfolding handle_register register_user register_error trim_space create_user user_clashes user_fits
    is_assignable_or_null
accepted = refl

register-login_example :
    (user : User) × (user.role ≡ role_or_customer hq_admin)
    × ((login plain_crypto none " 0912" "sesame-22"
          (handle_register plain_crypto none 9
            (some ambitious)
            (quiet (abebe ∷ []) ((3, 5) ∷ []))).1).0
        ≡ issued user (some (ok "token")))
unfolding trim_space contains_at
register-login_example =
    register-login plain_crypto (λ user properties. ok "token") 9 ambitious (abebe ∷ [])
      ((3, 5) ∷ []) refl (λ hash made. (eq_iff hash "sesame-22").1 (cc made)) refl accepted
