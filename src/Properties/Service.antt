-- ===== src/Properties/Service.antt =====
-- `PropertyService` of internal/domain/property/service.go over the property repository and the
-- assignments of the users repository, as cmd/api/main.go wires them. A call is under the error of
-- its context, if that is done. One random id serves every test for the nil id.
use Prim.Native.Char.{Char}
use text.Mathlib.Text.{◌==◌ as str_eq}
use doki_core_backend.Prelude.{ℕ, Bool, ◌||◌, String, List, Option, none, some, ◌==◌, if◌then◌else◌}
use doki_core_backend.Prelude.Int.{ℤ, pos, leb_ℤ}
use doki_core_backend.Errors.{Err, sentinel, wrapped, Result, ok, err, property_invalid_parameters}
use doki_core_backend.Identity.{Users, assign_user_to_property}
use doki_core_backend.Identity.Text.{trim_space}
use doki_core_backend.Properties.{Property, RoomType, PhysicalRoom, Db}
use doki_core_backend.Properties.Repo.{or_default, or_fresh}
use doki_core_backend.Properties.Repo

-- The two repositories.
pub record World : Type 0 where
  pub db : Db
  pub users : Users

-- `strings.ToUpper` over Unicode's table of simple upper-case letters.
unfoldable pub to_upper : (Char → Char) → String → String
to_upper table String.[] = ""
to_upper table (String.◌∷◌ c s) = String.◌∷◌ (table c) (to_upper table s)

abbrev pub trimmed : (Char → Char) → Property → Property
trimmed table p = record p {
  code = to_upper table (trim_space p.code);
  name = trim_space p.name;
  city = trim_space p.city;
  region = trim_space p.region;
}

unfoldable pub lacks_text : Property → Bool
lacks_text p = (str_eq p.code "" || str_eq p.name "") || (str_eq p.city "" || str_eq p.region "")

-- An owner that is given and is not the nil id replaces the one of the property.
unfoldable pub owner_of : Option ℕ → Option ℕ → Option ℕ
owner_of none old = old
owner_of (some id) old = if id == 0 then old else some id

abbrev pub filled : ℕ → Option ℕ → Property → Property
filled uuid owner p = record p {
  id = or_fresh uuid p.id;
  status = or_default p.status "DRAFT";
  category = or_default p.category "BRANDED";
  owner_user_id = owner_of owner p.owner_user_id;
}

-- The error of the assignment is dropped.
unfoldable pub assign_owner : Option ℕ → ℕ → Users → Users
assign_owner none id users = users
assign_owner (some owner) id users = (assign_user_to_property owner id users).1

unfoldable pub after_create : Result Property → World → Result Property × World
after_create (err e) w = (err (wrapped "create property" e), w)
after_create (ok p) w = (ok p, record w { users = assign_owner p.owner_user_id p.id w.users })

unfoldable pub create_trimmed : ℕ → Property → Option ℕ → World → Result Property × World
create_trimmed uuid p owner w =
    if lacks_text p
    then (err (sentinel property_invalid_parameters), w)
    else (let (reply, db) = Repo.create_property uuid (filled uuid owner p) w.db in
        after_create reply (record w { db = db }))

-- `CreateProperty`.
unfoldable pub create_property :
    (Char → Char) → Option Err → ℕ → Property → Option ℕ → World → Result Property × World
create_property table (some e) uuid p owner w = (err e, w)
create_property table none uuid p owner w = create_trimmed uuid (trimmed table p) owner w

unfoldable pub on_db : {A : Type 0} → (Db → Result A × Db) → World → Result A × World
on_db run w = let (reply, db) = run w.db in (reply, record w { db = db })

-- `GetPropertyByID`.
unfoldable pub get_property_by_id : ℕ → World → Result Property × World
get_property_by_id id w = on_db (Repo.get_property_by_id id) w

abbrev pub newer : String → String → String
newer new old = if str_eq new "" then old else new

abbrev pub newer_trimmed : String → String → String
newer_trimmed new old = if str_eq new "" then old else trim_space new

abbrev pub newer_at : Option ℤ → Option ℤ → Option ℤ
newer_at none old = old
newer_at (some x) old = some x

-- The row under the fields of the request that are not empty.
abbrev pub merged : Property → Property → Property
merged p row = record row {
  name = newer_trimmed p.name row.name;
  category = newer p.category row.category;
  status = newer p.status row.status;
  city = newer_trimmed p.city row.city;
  region = newer_trimmed p.region row.region;
  latitude = newer_at p.latitude row.latitude;
  longitude = newer_at p.longitude row.longitude;
}

unfoldable pub resulting : {A B : Type 0} → String → B → Result A → Result B
resulting text v (ok _) = ok v
resulting text v (err e) = err (wrapped text e)

unfoldable pub after_get : Property → Result Property → Db → Result Property × Db
after_get p (err e) db = (err e, db)
after_get p (ok row) db =
    let (reply, db1) = Repo.update_property (merged p row) db in
    (resulting "update property" (merged p row) reply, db1)

unfoldable pub update_row : Property → Db → Result Property × Db
update_row p db = let (found, db1) = Repo.get_property_by_id p.id db in after_get p found db1

-- `UpdateProperty`.
unfoldable pub update_property : Option Err → Property → World → Result Property × World
update_property (some e) p w = (err e, w)
update_property none p w = on_db (update_row p) w

unfoldable pub lacks_room_type : RoomType → Bool
lacks_room_type rt =
    ((rt.property_id == 0 || str_eq rt.code "") || str_eq rt.name "")
    || (leb_ℤ rt.capacity (pos 0) || leb_ℤ rt.total_inventory (pos 0))

unfoldable pub replied : {A : Type 0} → String → Result A → Result A
replied text (ok v) = ok v
replied text (err e) = err (wrapped text e)

unfoldable pub create_room_type_trimmed : ℕ → RoomType → Db → Result RoomType × Db
create_room_type_trimmed uuid rt db =
    if lacks_room_type rt
    then (err (sentinel property_invalid_parameters), db)
    else (let (reply, db1) =
          Repo.create_room_type uuid (record rt { id = or_fresh uuid rt.id }) db in
        (replied "create room type" reply, db1))

abbrev pub room_type_trimmed : (Char → Char) → RoomType → RoomType
room_type_trimmed table rt = record rt {
  code = to_upper table (trim_space rt.code);
  name = trim_space rt.name;
}

-- `CreateRoomType`.
unfoldable pub create_room_type :
    (Char → Char) → Option Err → ℕ → RoomType → World → Result RoomType × World
create_room_type table (some e) uuid rt w = (err e, w)
create_room_type table none uuid rt w =
    on_db (create_room_type_trimmed uuid (room_type_trimmed table rt)) w

unfoldable pub lacks_room : PhysicalRoom → Bool
lacks_room rm = (rm.property_id == 0 || rm.room_type_id == 0) || str_eq rm.room_number ""

unfoldable pub create_room_trimmed : ℕ → PhysicalRoom → Db → Result PhysicalRoom × Db
create_room_trimmed uuid rm db =
    if lacks_room rm
    then (err (sentinel property_invalid_parameters), db)
    else (let (reply, db1) = Repo.create_room uuid (record rm { id = or_fresh uuid rm.id }) db in
        (replied "create physical room" reply, db1))

abbrev pub room_trimmed : PhysicalRoom → PhysicalRoom
room_trimmed rm = record rm { room_number = trim_space rm.room_number }

-- `CreateRoom`.
unfoldable pub create_room : Option Err → ℕ → PhysicalRoom → World → Result PhysicalRoom × World
create_room (some e) uuid rm w = (err e, w)
create_room none uuid rm w = on_db (create_room_trimmed uuid (room_trimmed rm)) w

-- `ListRoomsByProperty`.
unfoldable pub list_rooms_by_property : ℕ → ℕ → World → Result (List PhysicalRoom) × World
list_rooms_by_property read id w = on_db (Repo.list_rooms_by_property read id) w
