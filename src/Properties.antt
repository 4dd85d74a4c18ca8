-- ===== src/Properties.antt =====
-- internal/domain/property/property.go and the tables property.property, property.room_type and
-- property.room (migrations/000002_init_property_schema.up.sql) with their keys, their foreign keys
-- and the widths of their columns.
pub mod Repo
pub mod Service
pub mod Api
pub mod Keys
pub mod Sound
pub mod Kept
pub mod Requests
pub mod Asked
pub mod Updating
pub mod Creating
pub mod Tests
use Prim.Native.String.{count}
use text.Mathlib.Text.{◌==◌ as str_eq}
use doki_core_backend.Prelude.{
  ℕ, Bool, true, false, not, ◌&&◌, ◌||◌, String, List, [], ◌∷◌, ◌++◌, Option, none, some, ltb, leb,
  ◌==◌, if◌then◌else◌,
}
use doki_core_backend.Prelude.Int.{ℤ, pos, negsuc}
use doki_core_backend.Columns.{varchar}
use doki_core_backend.Errors.{pg_error, Result, ok, err}
use doki_core_backend.Reservations.{Fault, first_fault, later_faults}
use doki_core_backend.Faults.{under}

-- `property.Property`, without the times of its row. Coordinates are in units of
-- 2^-1074 degrees, of which every float64 is a whole number.
pub record Property : Type 0 where
  pub id : ℕ
  pub code : String
  pub name : String
  pub category : String
  pub status : String
  pub region : String
  pub city : String
  pub latitude : Option ℤ
  pub longitude : Option ℤ
  pub base_currency : String
  pub check_in_time : String
  pub check_out_time : String
  pub owner_user_id : Option ℕ

-- `property.RoomType`; the currency of the rate is always ETB.
pub record RoomType : Type 0 where
  pub id : ℕ
  pub property_id : ℕ
  pub code : String
  pub name : String
  pub capacity : ℤ
  pub base_rate_minor : ℤ
  pub total_inventory : ℤ

pub record PhysicalRoom : Type 0 where
  pub id : ℕ
  pub property_id : ℕ
  pub room_type_id : ℕ
  pub room_number : String
  pub floor : Option String
  pub is_operational : Bool
  pub is_clean : Bool

pub record Tables : Type 0 where
  pub properties : List Property
  pub room_types : List RoomType
  pub rooms : List PhysicalRoom

-- `owners` are the ids of identity.app_user. `cast_time` is PostgreSQL's cast of a text to a TIME
-- and back, `cast_degrees n` its cast of a float to a DECIMAL(n, 8) and back, and `collates_le` the
-- order of texts in the database's collation.
pub record Db : Type 0 where
  pub tables : Tables
  pub owners : ℕ → Bool
  pub cast_time : String → Option String
  pub cast_degrees : ℕ → ℤ → Option ℤ
  pub collates_le : String → String → Bool
  pub faults : List Fault

-- A statement, and the call of it.
abbrev pub Statement : Type 0 → Type 0
Statement A = Tables → Result A × Tables

unfoldable pub call : {A : Type 0} → Statement A → Db → Result A × Db
call statement db =
    let (reply, tables) = under (first_fault db.faults) db.tables (statement db.tables) in
    (reply, record db { tables = tables; faults = later_faults db.faults })

-- VARCHAR(n) for a text that does not end in a blank, as the service trims every text that is tested
-- here; INT, and the two enumerations.
abbrev pub fits_varchar : ℕ → String → Bool
fits_varchar n s = leb (count s) n

abbrev pub fits_int32 : ℤ → Bool
fits_int32 (pos n) = ltb n 2147483648
fits_int32 (negsuc n) = ltb n 2147483648

unfoldable pub is_category : String → Bool
is_category s = str_eq s "BRANDED" || (str_eq s "AFFILIATE" || str_eq s "OVERFLOW")

unfoldable pub is_status : String → Bool
is_status s =
    (str_eq s "DRAFT" || str_eq s "PENDING_VERIFICATION")
    || (str_eq s "ACTIVE" || (str_eq s "SUSPENDED" || str_eq s "DEACTIVATED"))

-- The columns that an UPDATE writes, and the others of an INSERT.
unfoldable pub is_profile : Property → Bool
unfolding is_category is_status
is_profile p =
    ((fits_varchar 255 p.name && is_category p.category)
      && (is_status p.status && fits_varchar 100 p.city))
    && fits_varchar 100 p.region

unfoldable pub is_identity : Property → Bool
is_identity p = fits_varchar 30 p.code && fits_varchar 3 p.base_currency

module _ {A : Type 0} where
  unfoldable pub any : (A → Bool) → List A → Bool
  any fits [] = false
  any fits (x ∷ xs) = fits x || any fits xs

-- The keys: whether two rows have one in common.
unfoldable pub property_key : Property → Property → Bool
property_key p q = p.id == q.id || str_eq p.code q.code

unfoldable pub room_type_key : RoomType → RoomType → Bool
room_type_key rt q = rt.id == q.id || (rt.property_id == q.property_id && str_eq rt.code q.code)

unfoldable pub room_key : PhysicalRoom → PhysicalRoom → Bool
room_key rm q =
    rm.id == q.id || (rm.property_id == q.property_id && str_eq rm.room_number q.room_number)

-- The targets of the foreign keys.
unfoldable pub has_property : ℕ → List Property → Bool
has_property id rows = any (λ p. p.id == id) rows

unfoldable pub has_room_type : ℕ → List RoomType → Bool
has_room_type id rows = any (λ rt. rt.id == id) rows

unfoldable pub owner_known : (ℕ → Bool) → Option ℕ → Bool
owner_known owners none = true
owner_known owners (some id) = owners id

-- An INSERT fails by a value that its column cannot hold (22000 for any such error), then by a
-- unique key, and last by a foreign key.
unfoldable pub insert_outcome : Bool → Bool → Bool → Tables → Tables → Result (Unit {0}) × Tables
insert_outcome valid clash linked before after =
    if not valid
    then (err (pg_error "22000"), before)
    else (if clash
        then (err (pg_error "23505"), before)
        else (if linked then (ok tt, after) else (err (pg_error "23503"), before)))

abbrev pub add_property : Property → Tables → Tables
add_property p t = record t { properties = t.properties ++ p ∷ [] }

unfoldable pub degrees : Db → ℕ → Option ℤ → Option (Option ℤ)
degrees db n none = some none
degrees db n (some x) = elim (db.cast_degrees n x) [ none ↦ none | some y ↦ some (some y) ]

-- The row as its columns keep it: its times, its coordinates and its currency are cast.
unfoldable pub kept_as :
    Property
    → Option String
    → Option String
    → Option (Option ℤ)
    → Option (Option ℤ)
    → Option String
    → Option Property
kept_as p (some arrival) (some departure) (some latitude) (some longitude) (some currency) =
    some (record p {
      check_in_time = arrival;
      check_out_time = departure;
      latitude = latitude;
      longitude = longitude;
      base_currency = currency;
    })
kept_as p _ _ _ _ _ = none

unfoldable pub columns : Db → Property → Option Property
unfolding kept_as degrees
columns db p =
    kept_as p (db.cast_time p.check_in_time) (db.cast_time p.check_out_time)
      (degrees db 10 p.latitude) (degrees db 11 p.longitude) (varchar 3 p.base_currency)

unfoldable pub insert_columns : (ℕ → Bool) → Option Property → Statement (Unit {0})
insert_columns owners none t = (err (pg_error "22000"), t)
insert_columns owners (some p) t =
    insert_outcome (is_profile p && is_identity p) (any (λ q. property_key q p) t.properties)
      (owner_known owners p.owner_user_id) t (add_property p t)

unfoldable pub insert_property : Db → Property → Statement (Unit {0})
unfolding columns insert_columns
insert_property db p t = insert_columns db.owners (columns db p) t

abbrev pub add_room_type : RoomType → Tables → Tables
add_room_type rt t = record t { room_types = t.room_types ++ rt ∷ [] }

unfoldable pub insert_room_type : RoomType → Statement (Unit {0})
insert_room_type rt t =
    insert_outcome
      ((fits_varchar 10 rt.code && fits_varchar 100 rt.name) && fits_int32 rt.total_inventory)
      (any (λ q. room_type_key q rt) t.room_types) (has_property rt.property_id t.properties) t
      (add_room_type rt t)

unfoldable pub floor_column : Option String → Option (Option String)
floor_column none = some none
floor_column (some s) = elim (varchar 10 s) [ none ↦ none | some t ↦ some (some t) ]

abbrev pub add_room : PhysicalRoom → Tables → Tables
add_room rm t = record t { rooms = t.rooms ++ rm ∷ [] }

unfoldable pub insert_with_floor : PhysicalRoom → Option (Option String) → Statement (Unit {0})
insert_with_floor rm none t = (err (pg_error "22001"), t)
insert_with_floor rm (some floor) t =
    insert_outcome (fits_varchar 20 rm.room_number) (any (λ q. room_key q rm) t.rooms)
      (has_property rm.property_id t.properties && has_room_type rm.room_type_id t.room_types) t
      (add_room (record rm { floor = floor }) t)

unfoldable pub insert_room : PhysicalRoom → Statement (Unit {0})
unfolding insert_with_floor floor_column
insert_room rm t = insert_with_floor rm (floor_column rm.floor) t
