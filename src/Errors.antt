-- ===== src/Errors.antt =====
-- Go errors as values: internal/domain/errors.go, internal/domain/identity/repository.go and
-- internal/domain/property/repository.go, with `errors.Is` over wrapped errors.
use doki_core_backend.Prelude.{ℕ, Bool, false, String, ◌==◌}

-- One constructor for each sentinel variable that some function returns or tests. Variables of
-- the same name in two packages are different values, and so are their constructors.
pub data Sentinel : Type 0 where
  inventory_unavailable hold_expired hold_not_found invalid_date_range : Sentinel
  reservation_not_found invalid_status_change unauthorized forbidden user_not_found : Sentinel
  user_inactive not_found conflict already_exists validation invalid_parameters : Sentinel
  password_too_short payment_failed invalid_signature duplicate_transaction : Sentinel
  idempotency_conflict : Sentinel
  identity_unauthorized identity_forbidden identity_user_not_found identity_conflict : Sentinel
  identity_invalid_parameters identity_password_too_short : Sentinel
  property_not_found property_conflict property_invalid_parameters : Sentinel

-- The identity of a sentinel, which `errors.New` makes a fresh pointer.
abbrev pub address : Sentinel → ℕ
address inventory_unavailable = 0
address hold_expired = 1
address hold_not_found = 2
address invalid_date_range = 3
address reservation_not_found = 4
address invalid_status_change = 5
address unauthorized = 6
address forbidden = 7
address user_not_found = 8
address user_inactive = 9
address not_found = 10
address conflict = 11
address already_exists = 12
address validation = 13
address invalid_parameters = 14
address password_too_short = 15
address payment_failed = 16
address invalid_signature = 17
address duplicate_transaction = 18
address idempotency_conflict = 19
address identity_unauthorized = 20
address identity_forbidden = 21
address identity_user_not_found = 22
address identity_conflict = 23
address identity_invalid_parameters = 24
address identity_password_too_short = 25
address property_not_found = 26
address property_conflict = 27
address property_invalid_parameters = 28

-- `wrapped` is `fmt.Errorf` with `%w`; `plain` is an error whose text alone is kept, as by `%v`;
-- `pg_error` carries PostgreSQL's code; `no_rows` and `redis_nil` are the drivers' own sentinels.
pub data Err : Type 0 where
  sentinel : Sentinel → Err
  wrapped : String → Err → Err
  plain : String → Err
  pg_error : String → Err
  no_rows redis_nil cancelled : Err

-- `errors.Is(err, target)`.
abbrev pub errors_is : Err → Sentinel → Bool
errors_is (sentinel s) t = address s == address t
errors_is (wrapped text e) t = errors_is e t
errors_is (plain text) t = false
errors_is (pg_error code) t = false
errors_is no_rows t = false
errors_is redis_nil t = false
errors_is cancelled t = false

-- A pair `(value, error)` in which the caller reads the value only if the error is nil.
pub data Result {κ} (V : Type κ) : Type κ where
  err : Err → Result V
  ok : V → Result V
