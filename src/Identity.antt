-- ===== src/Identity.antt =====
-- internal/domain/identity/user.go and internal/adapter/repository/postgres/user_repo.go: the
-- tables identity.app_user (migrations/000001_init_identity_schema.up.sql) and
-- property.user_property_assignment, with the faults of the calls to come.
pub mod Text
pub mod Service
pub mod Api
pub mod Login
pub mod Refusals
pub mod Tokens
pub mod Sessions
pub mod Registering
pub mod Tests
use Prim.Native.String.{count}
use text.Mathlib.Text.{◌==◌ as str_eq}
use doki_core_backend.Prelude.{
  ℕ, Bool, true, false, ◌&&◌, ◌||◌, String, List, [], ◌∷◌, ◌++◌, Option, none, some, ◌==◌,
  if◌then◌else◌, take, leb, not,
}
use doki_core_backend.Errors.{
  Err, sentinel, wrapped, pg_error, no_rows, Result, ok, err, conflict, not_found,
}
use doki_core_backend.Reservations.{
  Fault, no_fault, refused, lost, first_fault, later_faults, is_unique_violation,
}
use doki_core_backend.Access.{Role, other_role}
use doki_core_backend.Columns.{is_assignable, is_assignable_or_null, kept_or_null, kept_text}

-- `identity.User`; the times of its row are left out.
pub record User : Type 0 where
  pub id : ℕ
  pub phone_number : String
  pub email : Option String
  pub password_hash : String
  pub full_name : String
  pub role : Role
  pub region : Option String
  pub is_active : Bool

-- The two tables: the users, and the pairs of a user's and a property's id. An iteration over rows
-- that breaks off does so when `arrives` of them have come.
pub record Users : Type 0 where
  pub rows : List User
  pub assignments : List (ℕ × ℕ)
  pub arrives : ℕ
  pub faults : List Fault

-- A query under a fault.
unfoldable pub query_under : {A : Type 0} → Fault → Result A → Result A
query_under no_fault reply = reply
query_under (refused e) reply = err e
query_under (lost e) reply = err e

unfoldable pub later : Users → Users
later db = record db { faults = later_faults db.faults }

unfoldable pub query : {A : Type 0} → Result A → Users → Result A × Users
unfolding query_under later
query reply db = (query_under (first_fault db.faults) reply, later db)

abbrev pub same_email : Option String → Option String → Bool
same_email none e = false
same_email (some a) none = false
same_email (some a) (some b) = str_eq a b

-- The primary key, UNIQUE (phone_number) and UNIQUE (email); NULLs are distinct.
unfoldable pub user_clashes : User → List User → Bool
user_clashes u [] = false
user_clashes u (v ∷ rows) =
    ((v.id == u.id || str_eq v.phone_number u.phone_number) || same_email v.email u.email)
    || user_clashes u rows

create_failed : Err → Err
create_failed e = if is_unique_violation e then sentinel conflict else wrapped "insert app_user" e

created : Result (Unit {0}) → Result (Unit {0})
unfolding create_failed
created (ok _) = ok tt
created (err e) = err (create_failed e)

-- The enumeration user_role.
unfoldable pub is_user_role : Role → Bool
is_user_role (other_role text) = false
is_user_role _ = true

-- The widths of the columns. The phone number that the service hands on, and a hash of bcrypt, do
-- not end in a blank.
unfoldable pub user_fits : User → Bool
unfolding is_user_role
user_fits u =
    ((leb (count u.phone_number) 20 && is_assignable_or_null 255 u.email)
      && (leb (count u.password_hash) 255 && is_assignable 100 u.full_name))
    && (is_user_role u.role && is_assignable_or_null 100 u.region)

-- The row as its columns keep it.
abbrev pub user_kept : User → User
user_kept u = record u {
  email = kept_or_null 255 u.email;
  full_name = kept_text 100 u.full_name;
  region = kept_or_null 100 u.region;
}

unfoldable pub insert_under : Fault → Bool → User → Users → Result (Unit {0}) × Users
insert_under (refused e) valid u db = (err e, db)
insert_under no_fault valid u db =
    if not valid
    then (err (pg_error "22000"), db)
    else (if user_clashes u db.rows
        then (err (pg_error "23505"), db)
        else (ok tt, record db { rows = db.rows ++ u ∷ [] }))
insert_under (lost e) valid u db = (
  err e,
  if not valid || user_clashes u db.rows then db else record db { rows = db.rows ++ u ∷ [] },
)

-- `UserRepository.CreateUser`; an id that is nil is replaced by a random one.
unfoldable pub create_user : ℕ → User → Users → Result (Unit {0}) × Users
unfolding insert_under created later
create_user uuid u db =
    let (reply, db1) =
      insert_under (first_fault db.faults) (user_fits u)
        (user_kept (record u { id = if u.id == 0 then uuid else u.id })) (later db) in
    (created reply, db1)

unfoldable pub find_user : (User → Bool) → List User → Option User
find_user fits [] = none
find_user fits (u ∷ rows) = if fits u then some u else find_user fits rows

-- `errors.Is(err, pgx.ErrNoRows)`.
unfoldable pub is_no_rows : Err → Bool
is_no_rows no_rows = true
is_no_rows (wrapped text e) = is_no_rows e
is_no_rows _ = false

-- `scanUser`.
unfoldable pub scan_user : Result User → Result User
unfolding is_no_rows
scan_user (ok u) = ok u
scan_user (err e) = if is_no_rows e then err (sentinel not_found) else err (wrapped "scan user" e)

unfoldable pub row_of : Option User → Result User
row_of none = err no_rows
row_of (some u) = ok u

unfoldable pub get_user : (User → Bool) → Users → Result User × Users
unfolding query scan_user row_of
get_user fits db =
    let (reply, db1) = query (row_of (find_user fits db.rows)) db in (scan_user reply, db1)

-- `GetByID`, `GetByPhone` and `GetByEmail`.
unfoldable pub get_by_id : ℕ → Users → Result User × Users
unfolding get_user
get_by_id id db = get_user (λ u. u.id == id) db

unfoldable pub get_by_phone : String → Users → Result User × Users
unfolding get_user
get_by_phone phone db = get_user (λ u. str_eq u.phone_number phone) db

unfoldable pub get_by_email : String → Users → Result User × Users
unfolding get_user
get_by_email email db = get_user (λ u. same_email u.email (some email)) db

unfoldable pub assigned_to : ℕ → List (ℕ × ℕ) → List ℕ
assigned_to user [] = []
assigned_to user ((u, p) ∷ rows) =
    if u == user then p ∷ assigned_to user rows else assigned_to user rows

-- The ids that have arrived when the iteration ends; no error of it is looked at.
unfoldable pub arrived_ids : ℕ → List ℕ → Result (Unit {0}) → List ℕ
arrived_ids arrives ps (ok _) = ps
arrived_ids arrives ps (err e) = take arrives ps

unfoldable pub assignments_read : Result (List ℕ) × Users → Result (List ℕ) × Users
unfolding query arrived_ids
assignments_read (err e, db) = (err (wrapped "query user property assignments" e), db)
assignments_read (ok ps, db) =
    let (reply, db1) = query (ok tt) db in (ok (arrived_ids db.arrives ps reply), db1)

-- `GetUserPropertyAssignments`.
unfoldable pub get_user_property_assignments : ℕ → Users → Result (List ℕ) × Users
unfolding query assignments_read
get_user_property_assignments user db =
    assignments_read (query (ok (assigned_to user db.assignments)) db)

has_pair : ℕ → ℕ → List (ℕ × ℕ) → Bool
has_pair user property [] = false
has_pair user property ((u, p) ∷ rows) = (u == user && p == property) || has_pair user property rows

-- ON CONFLICT (user_id, property_id) DO NOTHING.
unfoldable pub assign_under : Fault → ℕ → ℕ → Users → Result (Unit {0}) × Users
unfolding has_pair
assign_under (refused e) user property db = (err (wrapped "assign user to property" e), db)
assign_under no_fault user property db = (
  ok tt,
  if has_pair user property db.assignments
      then db
      else record db { assignments = db.assignments ++ (user, property) ∷ [] },
)
assign_under (lost e) user property db = (
  err (wrapped "assign user to property" e),
  if has_pair user property db.assignments
      then db
      else record db { assignments = db.assignments ++ (user, property) ∷ [] },
)

-- `AssignUserToProperty`.
unfoldable pub assign_user_to_property : ℕ → ℕ → Users → Result (Unit {0}) × Users
unfolding assign_under later
assign_user_to_property user property db =
    assign_under (first_fault db.faults) user property (later db)
