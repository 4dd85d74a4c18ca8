-- ===== src/Identity/Api.antt =====
-- The statuses that internal/adapter/http/v1/auth_handler.go answers with. A body that is no JSON
-- is `none`.
use doki_core_backend.Prelude.{ℕ, String, Option, none, some, if◌then◌else◌}
use doki_core_backend.Errors.{
  Err, Result, ok, err, errors_is, conflict, password_too_short, invalid_parameters, unauthorized,
}
use doki_core_backend.Identity.{User, Users}
use doki_core_backend.Identity.Service.{Crypto, RegisterRequest, register_user, login}

unfoldable pub register_status : Result User → ℕ
register_status (ok user) = 201
register_status (err e) =
    if errors_is e conflict
    then 409
    else (if errors_is e password_too_short
        then 400
        else (if errors_is e invalid_parameters then 400 else 500))

-- `AuthHandler.Register`; an absent role is the customer's, which the service makes of "" too.
unfoldable pub handle_register :
    Crypto → Option Err → ℕ → Option RegisterRequest → Users → ℕ × Users
unfolding register_status
handle_register crypto ctx uuid none db = (400, db)
handle_register crypto ctx uuid (some req) db =
    let (reply, db1) = register_user crypto ctx uuid req db in (register_status reply, db1)

unfoldable pub login_status : Result (String × User) → ℕ
login_status (ok out) = 200
login_status (err e) = if errors_is e unauthorized then 401 else 500

-- `AuthHandler.Login`.
unfoldable pub handle_login : Crypto → Option Err → Option (String × String) → Users → ℕ × Users
unfolding login_status
handle_login crypto ctx none db = (400, db)
handle_login crypto ctx (some (identifier, password)) db =
    let (reply, db1) = login crypto ctx identifier password db in (login_status reply, db1)
