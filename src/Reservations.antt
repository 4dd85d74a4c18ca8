-- ===== src/Reservations.antt =====
-- internal/adapter/repository/postgres/reservation_repo.go: the table reservation.reservations
-- (migrations/000004_init_reservation_schema.up.sql) and the repository's statements on it. A
-- database call may be refused, or its reply may be lost after the statement has run: the list
-- of faults has an entry for each call, and an empty list means that all goes well.
pub mod Repo
pub mod Rows
pub mod Expiring
pub mod Clearing
pub mod Oldest
pub mod Marking
use text.Mathlib.Text.{◌==◌ as str_eq}
use doki_core_backend.Prelude.{
  ℕ, suc, ◌+◌, Bool, true, false, not, ◌&&◌, ◌||◌, String, List, [], ◌∷◌, ◌++◌, Option, none, some,
  ltb, leb, ◌==◌, if◌then◌else◌,
}
use doki_core_backend.Prelude.Int.{ℤ, pos, negsuc, leb_ℤ}
use doki_core_backend.Errors.{
  Err, sentinel, wrapped, pg_error, no_rows, Result, ok, err, conflict, reservation_not_found,
  invalid_status_change,
}
use doki_core_backend.Clock.{date}
use doki_core_backend.Columns.{is_assignable, kept_text}
use doki_core_backend.Redis.Keys.{Token}

-- `domain.InventoryHold`.
pub record InventoryHold : Type 0 where
  pub token : Token
  pub property_id : ℕ
  pub room_type_id : ℕ
  pub check_in : ℕ
  pub check_out : ℕ
  pub expires_at : ℤ

-- `domain.Reservation`, a row of the table. The two dates are days.
pub record Reservation : Type 0 where
  pub id : ℕ
  pub booking_reference : String
  pub property_id : ℕ
  pub room_type_id : ℕ
  pub guest_name : String
  pub guest_phone : String
  pub check_in_date : ℕ
  pub check_out_date : ℕ
  pub status : String
  pub hold_token : Option Token
  pub hold_expires_at : Option ℤ
  pub created_at : ℕ
  pub updated_at : ℕ

pub data Fault : Type 0 where
  no_fault : Fault
  refused lost : Err → Fault

-- The table, the rows that other transactions have locked, the ids of the properties and of the room
-- types that its foreign keys refer to, and the faults of the calls to come.
pub record Db : Type 0 where
  pub rows : List Reservation
  pub locked : ℕ → Bool
  pub property_known : ℕ → Bool
  pub room_type_known : ℕ → Bool
  pub faults : List Fault

abbrev pub first_fault : List Fault → Fault
first_fault [] = no_fault
first_fault (f ∷ fs) = f

abbrev pub later_faults : List Fault → List Fault
later_faults [] = []
later_faults (f ∷ fs) = fs

-- One statement: its reply, and the rows that it leaves.
abbrev pub Statement : Type 0 → Type 0
Statement A = List Reservation → Result A × List Reservation

unfoldable pub deliver : {A : Type 0} → Fault → Result A × List Reservation → Db → Result A × Db
deliver no_fault (a, rows) db = (a, record db { rows = rows; faults = later_faults db.faults })
deliver (refused e) out db = (err e, record db { faults = later_faults db.faults })
deliver (lost e) (a, rows) db = (err e, record db { rows = rows; faults = later_faults db.faults })

-- A call of the pool: `Exec`, `Query` or `QueryRow`.
unfoldable pub call : {A : Type 0} → Statement A → Db → Result A × Db
unfolding deliver
call statement db = deliver (first_fault db.faults) (statement db.rows) db

-- The unique constraints on `id` and on `booking_reference`.
pub clashes : ℕ → String → List Reservation → Bool
clashes id ref [] = false
clashes id ref (row ∷ rows) =
    (row.id == id || str_eq row.booking_reference ref) || clashes id ref rows

-- INSERT of one row: it fails by a text that its column cannot hold, then by a unique key, and last
-- by a foreign key.
pub insert_row : Bool → Bool → Reservation → Statement (Unit {0})
insert_row valid linked row rows =
    if not valid
    then (err (pg_error "22001"), rows)
    else (if clashes row.id row.booking_reference rows
        then (err (pg_error "23505"), rows)
        else (if linked then (ok tt, rows ++ row ∷ []) else (err (pg_error "23503"), rows)))

-- The references of a row.
pub linked_in : Db → ℕ → ℕ → Bool
linked_in db property room_type = db.property_known property && db.room_type_known room_type

-- `errors.As(err, &pgErr) && pgErr.Code == "23505"`.
unfoldable pub is_unique_violation : Err → Bool
is_unique_violation (pg_error code) = str_eq code "23505"
is_unique_violation (wrapped text e) = is_unique_violation e
is_unique_violation (sentinel s) = false
is_unique_violation (Err.plain text) = false
is_unique_violation no_rows = false
is_unique_violation Err.redis_nil = false
is_unique_violation Err.cancelled = false

pub insert_failed : String → Err → Err
insert_failed text e = if is_unique_violation e then sentinel conflict else wrapped text e

-- The row that `CreateHold` writes, as its columns keep it.
abbrev pub hold_row : ℕ → String → ℕ → InventoryHold → String → String → Reservation
hold_row id ref now hold name phone = record {
  id = id;
  booking_reference = ref;
  property_id = hold.property_id;
  room_type_id = hold.room_type_id;
  guest_name = kept_text 150 name;
  guest_phone = kept_text 20 phone;
  check_in_date = date hold.check_in;
  check_out_date = date hold.check_out;
  status = "INVENTORY_HOLD";
  hold_token = some hold.token;
  hold_expires_at = some hold.expires_at;
  created_at = now;
  updated_at = now;
}

pub inserted : ℕ → Result (Unit {0}) → Result ℕ
unfolding insert_failed
inserted id (ok _) = ok id
inserted id (err e) = err (insert_failed "insert reservation hold" e)

pub texts_fit : String → String → String → Bool
texts_fit ref name phone =
    is_assignable 32 ref && (is_assignable 150 name && is_assignable 20 phone)

-- `ReservationRepository.CreateHold`, with the random id and booking reference.
unfoldable pub create_hold : ℕ → String → ℕ → InventoryHold → String → String → Db → Result ℕ × Db
unfolding insert_row inserted linked_in texts_fit
create_hold id ref now hold name phone db =
    let (reply, db1) =
      call
        (insert_row (texts_fit ref name phone) (linked_in db hold.property_id hold.room_type_id)
          (hold_row id ref now hold name phone))
        db in
    (inserted id reply, db1)
