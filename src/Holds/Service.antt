-- ===== src/Holds/Service.antt =====
-- `HoldService.CreateHold` of internal/domain/inventory/hold_service.go.
use doki_core_backend.Prelude.{ℕ, zero, suc, String, Option, none, some, ltb, if◌then◌else◌}
use doki_core_backend.Prelude.Int.{ℤ, pos, negsuc}
use doki_core_backend.Errors.{
  Err, sentinel, wrapped, plain, Result, ok, err, errors_is, inventory_unavailable,
  invalid_date_range,
}
use doki_core_backend.Clock.{midnight}
use doki_core_backend.Redis.Keys.{Token}
use doki_core_backend.Reservations.{InventoryHold}
use doki_core_backend.Holds.Ports.{FastHoldPort, ReservationPort}

-- What a call takes from its surroundings: the error of the context, if it is cancelled, the time,
-- and the random values that are drawn on the way.
pub record Env : Type 0 where
  pub ctx_err : Option Err
  pub now : ℕ
  pub token_uuid : ℕ
  pub reservation_id : ℕ
  pub booking_reference : String

pub record CreateHoldRequest : Type 0 where
  pub property_id : ℕ
  pub room_type_id : ℕ
  pub check_in : ℕ
  pub check_out : ℕ
  pub total_capacity : ℤ
  pub guest_name : String
  pub guest_phone : String

pub record CreateHoldResult : Type 0 where
  pub reservation_id : ℕ
  pub hold_token : Token
  pub expires_at : ℤ
  pub status : String

-- `15 * time.Minute`.
abbrev pub default_hold_ttl : ℤ
default_hold_ttl = pos 900000000000

-- "Safe default fallback".
unfoldable pub capacity_of : ℤ → ℤ
capacity_of (pos zero) = pos 100
capacity_of (pos (suc n)) = pos (suc n)
capacity_of (negsuc n) = pos 100

module _ {W : Type 0} (fast : FastHoldPort W) (repo : ReservationPort W) where
  -- An unavailable inventory is passed on as it is; any other error is wrapped.
  unfoldable pub acquire_failed : Err → Err
  acquire_failed e =
      if errors_is e inventory_unavailable then e else wrapped "fast hold acquisition" e

  -- The compensation after a failed write, by the outcome of the release.
  unfoldable pub write_failed : Err → Result (Unit {0}) → Err
  write_failed e (ok _) = wrapped "create reservation" e
  write_failed e (err release_err) =
      plain
        "create reservation failed and fast hold release failed [CRITICAL: reconciliation required]"

  unfoldable pub persisted : Token → ℤ → Result ℕ → W → Result CreateHoldResult × W
  unfolding write_failed
  persisted token expires_at (ok id) w = (
    ok (record {
      reservation_id = id;
      hold_token = token;
      expires_at = expires_at;
      status = "INVENTORY_HOLD";
    }),
    w,
  )
  persisted token expires_at (err e) w =
      let (released, w1) = fast.release token w in (err (write_failed e released), w1)

  unfoldable pub acquired :
      Env → CreateHoldRequest → Result (Token × ℤ) → W → Result CreateHoldResult × W
  unfolding acquire_failed persisted
  acquired env req (err e) w = (err (acquire_failed e), w)
  acquired env req (ok (token, expires_at)) w =
      let hold : InventoryHold = record {
        token = token;
        property_id = req.property_id;
        room_type_id = req.room_type_id;
        check_in = req.check_in;
        check_out = req.check_out;
        expires_at = expires_at;
      } in
      let (reply, w1) =
        repo.create_hold env.reservation_id env.booking_reference env.now hold req.guest_name
          req.guest_phone w in
      persisted token expires_at reply w1

  -- The part of `CreateHold` behind the validation.
  unfoldable pub acquire_and_persist : Env → CreateHoldRequest → W → Result CreateHoldResult × W
  unfolding acquired
  acquire_and_persist env req w =
      let (reply, w1) =
        fast.acquire env.now env.token_uuid req.property_id req.room_type_id req.check_in
          req.check_out (capacity_of req.total_capacity) default_hold_ttl w in
      acquired env req reply w1

  -- The validation, under a context that is cancelled or not.
  unfoldable pub validate_and_hold :
      Option Err → Env → CreateHoldRequest → W → Result CreateHoldResult × W
  unfolding acquire_and_persist
  validate_and_hold (some e) env req w = (err e, w)
  validate_and_hold none env req w =
      if ltb req.check_in req.check_out
      then (if ltb req.check_in (midnight env.now)
          then (err (sentinel invalid_date_range), w)
          else acquire_and_persist env req w)
      else (err (sentinel invalid_date_range), w)

  -- `HoldService.CreateHold`.
  unfoldable pub create_hold : Env → CreateHoldRequest → W → Result CreateHoldResult × W
  unfolding validate_and_hold
  create_hold env req w = validate_and_hold env.ctx_err env req w
