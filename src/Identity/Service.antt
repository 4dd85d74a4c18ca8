-- ===== src/Identity/Service.antt =====
-- `AuthService` of internal/domain/identity/auth_service.go on the PostgreSQL repository. bcrypt
-- and the issuer of tokens are code of other packages and stand here as parameters.
use Prim.Native.String.{len}
use text.Mathlib.Text.{◌==◌ as str_eq}
use doki_core_backend.Prelude.{
  ℕ, Bool, true, ◌||◌, not, String, List, Option, none, some, ltb, if◌then◌else◌,
}
use doki_core_backend.Errors.{
  Err, sentinel, wrapped, plain, Result, ok, err, identity_unauthorized,
  identity_invalid_parameters, identity_password_too_short,
}
use doki_core_backend.Access.{Role, customer, other_role, role_eq}
use doki_core_backend.Identity.{
  User, Users, create_user, get_by_phone, get_by_email, get_user_property_assignments,
}
use doki_core_backend.Identity.Text.{trim_space, contains_at}

-- `bcrypt.GenerateFromPassword` at cost 12, `bcrypt.CompareHashAndPassword` with a nil error, and
-- `TokenIssuer.GenerateToken`, where an issuer is configured.
pub record Crypto : Type 0 where
  pub hash_of : String → Result String
  pub verifies : String → String → Bool
  pub issuer : Option (User → List ℕ → Result String)

-- `RegisterRequest`.
pub record RegisterRequest : Type 0 where
  pub phone_number : String
  pub email : Option String
  pub password : String
  pub full_name : String
  pub role : Role
  pub region : Option String

-- An empty role means a customer.
abbrev pub role_or_customer : Role → Role
role_or_customer role = if role_eq role (other_role "") then customer else role

abbrev pub new_user : ℕ → RegisterRequest → String → User
new_user uuid req hash = record {
  id = uuid;
  phone_number = trim_space req.phone_number;
  email = req.email;
  password_hash = hash;
  full_name = req.full_name;
  role = role_or_customer req.role;
  region = req.region;
  is_active = true;
}

unfoldable pub stored : User → Result (Unit {0}) → Result User
stored user (ok _) = ok user
stored user (err e) = err e

unfoldable pub hashed : ℕ → RegisterRequest → Result String → Users → Result User × Users
unfolding stored
hashed uuid req (err e) db = (err (wrapped "hash password" e), db)
hashed uuid req (ok hash) db =
    let (reply, db1) = create_user uuid (new_user uuid req hash) db in
    (stored (new_user uuid req hash) reply, db1)

-- The validation of a registration: the error, or none.
unfoldable pub register_error : RegisterRequest → Option Err
register_error req =
    if str_eq (trim_space req.phone_number) ""
    then some (sentinel identity_invalid_parameters)
    else (if ltb (len req.password) 8
        then some (sentinel identity_password_too_short)
        else (if str_eq req.full_name ""
            then some (sentinel identity_invalid_parameters)
            else none))

unfoldable pub register_valid :
    Crypto → ℕ → RegisterRequest → Option Err → Users → Result User × Users
unfolding hashed
register_valid crypto uuid req (some e) db = (err e, db)
register_valid crypto uuid req none db = hashed uuid req (crypto.hash_of req.password) db

-- `RegisterUser`, with the random id.
unfoldable pub register_user :
    Crypto → Option Err → ℕ → RegisterRequest → Users → Result User × Users
unfolding register_valid register_error
register_user crypto (some e) uuid req db = (err e, db)
register_user crypto none uuid req db = register_valid crypto uuid req (register_error req) db

unfoldable pub issued : User → Option (Result String) → Result (String × User)
issued user none = err (plain "token issuer not configured")
issued user (some (err e)) = err (wrapped "generate auth token" e)
issued user (some (ok token)) = ok (token, user)

unfoldable pub with_assignments : Crypto → User → Result (List ℕ) → Result (String × User)
unfolding issued
with_assignments crypto user (err e) = err (wrapped "fetch user property assignments" e)
with_assignments crypto user (ok properties) =
    issued user (elim crypto.issuer [ none ↦ none | some issue ↦ some (issue user properties) ])

unfoldable pub checked : Crypto → String → Result User → Users → Result (String × User) × Users
unfolding with_assignments
checked crypto password (err e) db = (err (sentinel identity_unauthorized), db)
checked crypto password (ok user) db =
    if not user.is_active || not (crypto.verifies user.password_hash password)
    then (err (sentinel identity_unauthorized), db)
    else (let (reply, db1) = get_user_property_assignments user.id db in
        (with_assignments crypto user reply, db1))

-- By e-mail if there is an at sign, by phone number otherwise.
unfoldable pub find_login : String → Users → Result User × Users
find_login identifier db =
    if contains_at identifier then get_by_email identifier db else get_by_phone identifier db

unfoldable pub login_trimmed : Crypto → String → String → Users → Result (String × User) × Users
unfolding checked find_login
login_trimmed crypto identifier password db =
    if str_eq identifier "" || str_eq password ""
    then (err (sentinel identity_unauthorized), db)
    else (let (reply, db1) = find_login identifier db in checked crypto password reply db1)

-- `Login`.
unfoldable pub login :
    Crypto → Option Err → String → String → Users → Result (String × User) × Users
unfolding login_trimmed
login crypto (some e) identifier password db = (err e, db)
login crypto none identifier password db = login_trimmed crypto (trim_space identifier) password db
