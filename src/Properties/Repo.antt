-- ===== src/Properties/Repo.antt =====
-- internal/adapter/repository/postgres/property_repo.go. A Go method that writes to its argument
-- replies with the written value.
use text.Mathlib.Text.{◌==◌ as str_eq}
use doki_core_backend.Prelude.{
  ℕ, zero, suc, Bool, true, ◌&&◌, String, List, [], ◌∷◌, Option, none, some, ltb, ◌==◌,
  if◌then◌else◌, length, take, drop,
}
use doki_core_backend.Prelude.Int.{ℤ, pos, negsuc, leb_ℤ}
use doki_core_backend.Errors.{
  sentinel, wrapped, pg_error, no_rows, Result, ok, err, conflict, not_found,
}
use doki_core_backend.Reservations.{is_unique_violation}
use doki_core_backend.Identity.{is_no_rows}
use doki_core_backend.Properties.{
  Property, RoomType, PhysicalRoom, Db, Statement, call, is_profile, degrees, insert_property,
  insert_room_type, insert_room,
}

abbrev pub or_default : String → String → String
or_default s d = if str_eq s "" then d else s

abbrev pub or_fresh : ℕ → ℕ → ℕ
or_fresh uuid id = if id == 0 then uuid else id

abbrev pub with_defaults : ℕ → Property → Property
with_defaults uuid p = record p {
  id = or_fresh uuid p.id;
  check_in_time = or_default p.check_in_time "14:00:00";
  check_out_time = or_default p.check_out_time "11:00:00";
  base_currency = or_default p.base_currency "ETB";
}

-- What an insert of `v` comes to, under the text that wraps its error.
unfoldable pub saved_as : {A : Type 0} → String → A → Result (Unit {0}) → Result A
saved_as text v (ok _) = ok v
saved_as text v (err e) =
    if is_unique_violation e then err (sentinel conflict) else err (wrapped text e)

-- `CreateProperty`.
unfoldable pub create_property : ℕ → Property → Db → Result Property × Db
create_property uuid p db =
    let q = with_defaults uuid p in
    let (reply, db1) = call (insert_property db q) db in (saved_as "insert property" q reply, db1)

-- The columns that the UPDATE sets.
abbrev pub profile_of : Property → Property → Property
profile_of p row = record row {
  name = p.name;
  category = p.category;
  status = p.status;
  city = p.city;
  region = p.region;
  latitude = p.latitude;
  longitude = p.longitude;
}

unfoldable pub set_profile : Property → List Property → List Property
set_profile p [] = []
set_profile p (row ∷ rows) = (if row.id == p.id then profile_of p row else row) ∷ set_profile p rows

unfoldable pub select_rows : {A : Type 0} → (A → Bool) → List A → List A
select_rows fits [] = []
select_rows fits (x ∷ xs) = let rest = select_rows fits xs in if fits x then x ∷ rest else rest

unfoldable pub placed : Property → Option (Option ℤ) → Option (Option ℤ) → Option Property
placed p (some latitude) (some longitude) =
    some (record p { latitude = latitude; longitude = longitude })
placed p _ _ = none

unfoldable pub set_placed : Option Property → Statement ℕ
set_placed none t = (err (pg_error "22000"), t)
set_placed (some p) t =
    if is_profile p
    then (
      ok (length (select_rows (λ row. row.id == p.id) t.properties)),
      record t { properties = set_profile p t.properties },
    )
    else (err (pg_error "22000"), t)

-- UPDATE, with the number of rows affected; the coordinates are cast.
unfoldable pub update_profile : Db → Property → Statement ℕ
unfolding set_placed placed
update_profile db p t =
    set_placed (placed p (degrees db 10 p.latitude) (degrees db 11 p.longitude)) t

unfoldable pub updated : Result ℕ → Result (Unit {0})
updated (err e) = err (wrapped "update property" e)
updated (ok zero) = err (sentinel not_found)
updated (ok (suc n)) = ok tt

-- `UpdateProperty`.
unfoldable pub update_property : Property → Db → Result (Unit {0}) × Db
update_property p db = let (reply, db1) = call (update_profile db p) db in (updated reply, db1)

unfoldable pub first : {A : Type 0} → List A → Result A
first [] = err no_rows
first (x ∷ xs) = ok x

unfoldable pub scanned : {A : Type 0} → String → Result A → Result A
scanned text (ok v) = ok v
scanned text (err e) = if is_no_rows e then err (sentinel not_found) else err (wrapped text e)

-- `GetPropertyByID`.
unfoldable pub get_property_by_id : ℕ → Db → Result Property × Db
get_property_by_id id db =
    let (reply, db1) = call (λ t. (first (select_rows (λ p. p.id == id) t.properties), t)) db in
    (scanned "get property by id" reply, db1)

-- ORDER BY, by a relation that the sort keeps the order of equal rows under.
unfoldable pub insert_in_order : {A : Type 0} → (A → A → Bool) → A → List A → List A
insert_in_order le x [] = x ∷ []
insert_in_order le x (y ∷ ys) = if le x y then x ∷ y ∷ ys else y ∷ insert_in_order le x ys

unfoldable pub order_by : {A : Type 0} → (A → A → Bool) → List A → List A
unfolding insert_in_order
order_by le [] = []
order_by le (x ∷ xs) = insert_in_order le x (order_by le xs)

-- `property.PropertyFilter`.
pub record PropertyFilter : Type 0 where
  pub region : Option String
  pub city : Option String
  pub category : Option String
  pub status : Option String
  pub limit : ℤ
  pub offset : ℤ

abbrev pub asked : Option String → String → Bool
asked none s = true
asked (some t) s = str_eq s t

unfoldable pub matches : PropertyFilter → Property → Bool
matches f p =
    (asked f.region p.region && asked f.city p.city)
    && (asked f.category p.category && asked f.status p.status)

-- `limit <= 0 || limit > 100` means 20.
unfoldable pub page_limit : ℤ → ℕ
page_limit (pos zero) = 20
page_limit (pos (suc n)) = if ltb 100 (suc n) then 20 else suc n
page_limit (negsuc n) = 20

unfoldable pub offset_of : ℤ → ℕ
offset_of (pos n) = n
offset_of (negsuc n) = 0

unfoldable pub select_properties :
    (String → String → Bool) → PropertyFilter → List Property → List Property
select_properties le f rows =
    take (page_limit f.limit) (
      drop (offset_of f.offset) (order_by (λ p q. le p.name q.name) (select_rows (matches f) rows)))

unfoldable pub after_read : {A : Type 0} → String → Result A → Result A
after_read text (ok v) = ok v
after_read text (err e) = err (wrapped text e)

-- The iteration over the rows of a query: a second call, which may break off with an error.
unfoldable pub iterated : {A : Type 0} → String → String → Result A × Db → Result A × Db
iterated asking reading (err e, db) = (err (wrapped asking e), db)
iterated asking reading (ok v, db) =
    let (reply, db1) = call (λ t. (ok v, t)) db in (after_read reading reply, db1)

-- `ListProperties`.
unfoldable pub list_properties : PropertyFilter → Db → Result (List Property) × Db
list_properties f db =
    iterated "list properties query" "list properties rows"
      (call (λ t. (ok (select_properties db.collates_le f t.properties), t)) db)

-- `CreateRoomType`.
unfoldable pub create_room_type : ℕ → RoomType → Db → Result RoomType × Db
create_room_type uuid rt db =
    let q = record rt { id = or_fresh uuid rt.id } in
    let (reply, db1) = call (insert_room_type q) db in (saved_as "insert room_type" q reply, db1)

-- `GetRoomTypeByID`.
unfoldable pub get_room_type_by_id : ℕ → Db → Result RoomType × Db
get_room_type_by_id id db =
    let (reply, db1) = call (λ t. (first (select_rows (λ rt. rt.id == id) t.room_types), t)) db in
    (scanned "get room type by id" reply, db1)

-- `ListRoomTypesByProperty`.
unfoldable pub list_room_types_by_property : ℕ → Db → Result (List RoomType) × Db
list_room_types_by_property id db = iterated "list room types query" "list room types rows" (
    call
      (λ t. (
        ok (
            order_by (λ rt q. leb_ℤ rt.base_rate_minor q.base_rate_minor)
              (select_rows (λ rt. rt.property_id == id) t.room_types)),
        t,
      ))
      db)

-- `CreateRoom`.
unfoldable pub create_room : ℕ → PhysicalRoom → Db → Result PhysicalRoom × Db
create_room uuid rm db =
    let q = record rm { id = or_fresh uuid rm.id } in
    let (reply, db1) = call (insert_room q) db in (saved_as "insert room" q reply, db1)

-- The rows that have arrived when the iteration ends; no error of it is looked at.
unfoldable pub arrived : {A : Type 0} → ℕ → List A → Result (Unit {0}) → List A
arrived read rows (ok _) = rows
arrived read rows (err e) = take read rows

unfoldable pub read_rooms : ℕ → Result (List PhysicalRoom) × Db → Result (List PhysicalRoom) × Db
read_rooms read (err e, db) = (err (wrapped "list rooms query" e), db)
read_rooms read (ok rows, db) =
    let (reply, db1) = call (λ t. (ok tt, t)) db in (ok (arrived read rows reply), db1)

-- `ListRoomsByProperty`; an iteration that breaks off does so after `read` rows.
unfoldable pub list_rooms_by_property : ℕ → ℕ → Db → Result (List PhysicalRoom) × Db
list_rooms_by_property read id db = read_rooms read (
    call
      (λ t. (
        ok (
            order_by (λ rm q. db.collates_le rm.room_number q.room_number)
              (select_rows (λ rm. rm.property_id == id) t.rooms)),
        t,
      ))
      db)
