-- ===== src/Holds/Api.antt =====
-- `HoldHandler.CreateHold` of internal/adapter/http/v1/hold_handler.go, by the statuses that it
-- answers with. `uuid.Parse` is a parameter.
use Prim.Native.String.{len}
use text.Mathlib.Text.{◌==◌ as str_eq}
use doki_core_backend.Prelude.{
  ℕ, zero, suc, ◌*◌, ◌||◌, not, String, Option, none, some, ltb, if◌then◌else◌,
}
use doki_core_backend.Prelude.Int.{ℤ, pos, negsuc}
use doki_core_backend.Errors.{
  Result, ok, err, errors_is, inventory_unavailable, invalid_date_range, conflict,
}
use doki_core_backend.Clock.{day, midnight}
use doki_core_backend.Clock.Dates.{parse_date}
use doki_core_backend.Holds.Ports.{FastHoldPort, ReservationPort}
use doki_core_backend.Holds.Service.{Env, CreateHoldRequest, CreateHoldResult, create_hold}

-- `dto.CreateHoldRequest`.
pub record HoldBody : Type 0 where
  pub property_id : String
  pub room_type_id : String
  pub check_in : String
  pub check_out : String
  pub guest_name : String
  pub guest_phone : String

-- The body as the handler reads it: a status to refuse it with, or the service's request.
pub data Parsed : Type 0 where
  refuse : ℕ → Parsed
  accept : CreateHoldRequest → Parsed

-- The repository of room types: none if the handler has none. An entry is the total inventory of
-- the room type, or none where the look-up fails.
abbrev pub RoomTypes : Type 0
RoomTypes = Option (ℕ → Option ℤ)

-- The capacity of a room type if it is positive, 100 otherwise.
abbrev positive_or_default : Option ℤ → ℤ
positive_or_default none = pos 100
positive_or_default (some (pos zero)) = pos 100
positive_or_default (some (pos (suc n))) = pos (suc n)
positive_or_default (some (negsuc n)) = pos 100

unfoldable pub capacity_for : RoomTypes → ℕ → ℤ
capacity_for none room_type = pos 100
capacity_for (some find) room_type = positive_or_default (find room_type)

module _ (parse_uuid : String → Option ℕ) (room_types : RoomTypes) (now : ℕ) (body : HoldBody) where
  -- The date range, which is tested first, and the guest, once the ids and the days are read.
  unfoldable pub validated : ℕ → ℕ → ℕ → ℕ → Parsed
  validated p q check_in check_out =
      if not (ltb (check_in * day) (check_out * day)) || ltb (check_in * day) (midnight now)
      then refuse 422
      else (if str_eq body.guest_name "" || ltb 150 (len body.guest_name)
          then refuse 400
          else (if str_eq body.guest_phone ""
              then refuse 400
              else accept (record {
                property_id = p;
                room_type_id = q;
                check_in = check_in * day;
                check_out = check_out * day;
                total_capacity = capacity_for room_types q;
                guest_name = body.guest_name;
                guest_phone = body.guest_phone;
              })))

  unfoldable pub read_out : ℕ → ℕ → ℕ → Option ℕ → Parsed
  unfolding validated
  read_out p q check_in none = refuse 400
  read_out p q check_in (some check_out) = validated p q check_in check_out

  unfoldable pub read_in : ℕ → ℕ → Option ℕ → Parsed
  unfolding read_out
  read_in p q none = refuse 400
  read_in p q (some check_in) = read_out p q check_in (parse_date body.check_out)

  unfoldable pub read_room_type : ℕ → Option ℕ → Parsed
  unfolding read_in
  read_room_type p none = refuse 400
  read_room_type p (some q) = read_in p q (parse_date body.check_in)

  unfoldable pub read_property : Option ℕ → Parsed
  unfolding read_room_type
  read_property none = refuse 400
  read_property (some p) = read_room_type p (parse_uuid body.room_type_id)

  unfoldable pub read_body : Parsed
  unfolding read_property
  read_body = read_property (parse_uuid body.property_id)

unfoldable pub hold_status : Result CreateHoldResult → ℕ
hold_status (ok result) = 201
hold_status (err e) =
    if errors_is e inventory_unavailable
    then 409
    else (if errors_is e invalid_date_range
        then 422
        else (if errors_is e conflict then 409 else 500))

module _ {W : Type 0} (fast : FastHoldPort W) (repo : ReservationPort W)
    (parse_uuid : String → Option ℕ) (room_types : RoomTypes) where
  unfoldable pub serve : Env → Parsed → W → ℕ × W
  unfolding hold_status
  serve env (refuse status) w = (status, w)
  serve env (accept req) w =
      let (reply, w1) = create_hold fast repo env req w in (hold_status reply, w1)

  -- `CreateHold` of the handler; a body that is no JSON is `none`.
  unfoldable pub handle_create_hold : Env → Option HoldBody → W → ℕ × W
  unfolding serve read_body
  handle_create_hold env none w = (400, w)
  handle_create_hold env (some body) w = serve env (read_body parse_uuid room_types env.now body) w
