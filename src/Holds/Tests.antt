-- ===== src/Holds/Tests.antt =====
-- The hold service and the sweeper at concrete inputs, on the Redis server in memory.
use text.Mathlib.Text.{◌==◌ as str_eq}
use doki_core_backend.Clock.{day}
use doki_core_backend.Clock.Dates.{parse_date}
use doki_core_backend.Holds.Api.{
  HoldBody, accept, read_body, validated, capacity_for, handle_create_hold,
}
use doki_core_backend.Holds.Booking.{Books, before, handle_create_hold-Books}
use doki_core_backend.Prelude.{
  List, String, ◌*◌, if◌then◌else◌, ℕ, ◌≡◌, refl, false, true, [], ◌∷◌, Option, some, none,
}
use doki_core_backend.Prelude.Int.{ℤ, pos}
use doki_core_backend.Errors.{ok, plain}
use doki_core_backend.Redis.Keys.{hold_tok}
use doki_core_backend.Redis.Memory.{memory, fresh}
use doki_core_backend.Redis.Adapter.Atomic.{healthy}
use doki_core_backend.Reservations.{Reservation, Db, refused}
use doki_core_backend.Reservations.{call}
use doki_core_backend.Reservations.Repo.{
  get_expired_holds, mark_reservation_expired, expired_rows, is_expired, limit_of, affected,
}
use doki_core_backend.Reservations.{create_hold as insert_hold}
use doki_core_backend.Holds.Service.{Env, create_hold}
use doki_core_backend.Holds.Sweeper.{batch_of, sweep_expired_holds}
use doki_core_backend.Holds.System.{World, redis_port, postgres_port}
use doki_core_backend.Holds.Compensation.{Compensated, stay, create_hold-Compensated}
use doki_core_backend.Reservations.Repo.Swap.{Swapped, mark_reservation_expired-Swapped, quiet}

abbrev env : Env
env = record {
  ctx_err = none;
  now = 0;
  token_uuid = 7;
  reservation_id = 40;
  booking_reference = "DK-AAAA2222";
}

-- The database refuses the write.
abbrev refusing : Db
refusing = record {
  rows = [];
  locked = λ id. false;
  property_known = λ id. true;
  room_type_known = λ id. true;
  faults = refused (plain "connection refused") ∷ [];
}

create_hold-Compensated_example :
    Compensated memory env 1 1 100 1 (pos 0) "Abebe" "0911" fresh refusing (
      create_hold
        (redis_port memory)
        (postgres_port memory)
        env
        (stay memory env 1 1 100 1 (pos 0) "Abebe" "0911")
        (record { redis = healthy memory fresh; db = refusing }))
create_hold-Compensated_example =
    create_hold-Compensated memory env 1 1 100 1 (pos 0) "Abebe" "0911" fresh refusing (λ k. tt)
      refl

abbrev booked : ℕ → Option ℤ → Reservation
booked id expires = record {
  id = id;
  booking_reference = "DK-BBBB3333";
  property_id = 1;
  room_type_id = 1;
  guest_name = "Abebe";
  guest_phone = "0911";
  check_in_date = 100;
  check_out_date = 102;
  status = "INVENTORY_HOLD";
  hold_token = some (hold_tok 7);
  hold_expires_at = expires;
  created_at = 0;
  updated_at = 0;
}

-- One hold is past its time at 1000, one is not.
abbrev two_holds : World memory
two_holds = record {
  redis = healthy memory fresh;
  db = record {
    rows = booked 1 (some (pos 900)) ∷ booked 2 (some (pos 2000)) ∷ [];
    locked = λ id. false;
    property_known = λ id. true;
    room_type_known = λ id. true;
    faults = [];
  };
}

-- The sweep marks the one that is past its time.
sweep_marks_one :
    (sweep_expired_holds
      (some (redis_port memory))
      (postgres_port memory)
      none
      1000
      (pos 0)
      two_holds).0
    ≡ ok 1
unfolding sweep_expired_holds batch_of get_expired_holds mark_reservation_expired expired_rows
    is_expired limit_of affected call
sweep_marks_one = refl

-- A parser of ids that knows two texts.
abbrev parse_id : String → Option ℕ
parse_id text = if str_eq text "p1" then some 1 else (if str_eq text "r2" then some 2 else none)

abbrev weekend : HoldBody
weekend = record {
  property_id = "p1";
  room_type_id = "r2";
  check_in = "2026-01-03";
  check_out = "2026-01-05";
  guest_name = "Abebe";
  guest_phone = "0911";
}

handle_create_hold-Books_example : Books memory parse_id none env fresh refusing weekend (
    handle_create_hold
      (redis_port memory)
      (postgres_port memory)
      parse_id
      none
      env
      (some weekend)
      (before memory parse_id none env fresh refusing))
handle_create_hold-Books_example =
    handle_create_hold-Books memory parse_id none env fresh refusing weekend (λ k. tt) refl

-- The handler accepts that stay.
weekend_accepted :
    read_body parse_id none 0 weekend
    ≡ accept (record {
      property_id = 1;
      room_type_id = 2;
      check_in = 739618 * day;
      check_out = 739620 * day;
      total_capacity = pos 100;
      guest_name = "Abebe";
      guest_phone = "0911";
    })
unfolding read_body validated parse_date capacity_for
weekend_accepted = refl

-- A row that another client has confirmed since it was selected.
abbrev confirmed : List Reservation
confirmed = record (booked 1 (some (pos 900))) { status = "CONFIRMED" } ∷ []

mark_reservation_expired-Swapped_example :
    (rows' : List Reservation) × Swapped 1000 1 "" "EXPIRED" confirmed rows'
    × ((mark_reservation_expired 1000 1 (quiet confirmed)).1 ≡ quiet rows')
mark_reservation_expired-Swapped_example = mark_reservation_expired-Swapped 1000 1 confirmed
