-- ===== src/Properties/Sound.antt =====
-- The invariant of the tables of properties, room types and rooms, which the statements of
-- internal/adapter/repository/postgres/property_repo.go keep.
use doki_core_backend.Prelude.{
  ℕ, ◌≡◌, ◌≢◌, refl, Bool, true, false, ◌&&◌, List, [], ◌∷◌, ◌++◌, ◌==◌, arith,
}
use text.Mathlib.TextEquality.{eq_iff}
use doki_core_backend.Prelude.Int.{pos, ◌≤ℤ◌}
use doki_core_backend.Reservations.{first_fault}
use doki_core_backend.Faults.{under-keeps}
use doki_core_backend.Properties.{
  Property, RoomType, PhysicalRoom, Tables, Db, Statement, call, is_profile, is_identity, any,
  property_key, room_type_key, room_key, has_property, has_room_type, insert_outcome, add_property,
  add_room_type, add_room,
}
use doki_core_backend.Properties.Keys.{
  All, Distinct, All-snoc, All-imp, Distinct-snoc, any-snoc, any-set_profile, All-set_profile,
  Distinct-set_profile,
}
use doki_core_backend.Properties.Repo.{set_profile}
use doki_core_backend.Properties.Service.{lacks_room_type}

-- The row of a room type has a code, a name, a capacity and an inventory above zero.
abbrev pub Stocked : RoomType → Type 0
Stocked rt =
    (rt.code ≢ "") × (rt.name ≢ "") × (pos 1 ≤ℤ rt.capacity) × (pos 1 ≤ℤ rt.total_inventory)

-- What `CreateRoomType` lets through.
pub lacks_room_type-Stocked : (rt : RoomType) → lacks_room_type rt ≡ false → Stocked rt
unfolding lacks_room_type
lacks_room_type-Stocked rt h = (
  λ e. absurd (ground (arith, h, (eq_iff rt.code "").1 e)),
  λ e. absurd (ground (arith, h, (eq_iff rt.name "").1 e)),
  ground (arith, h),
  ground (arith, h),
)

-- Its code is not blank.
abbrev pub Coded : Property → Type 0
Coded p = p.code ≢ ""

abbrev pub Numbered : PhysicalRoom → Type 0
Numbered rm = rm.room_number ≢ ""

abbrev pub Housed : List Property → List RoomType → PhysicalRoom → Type 0
Housed ps rts rm = (has_property rm.property_id ps && has_room_type rm.room_type_id rts) ≡ true

-- Ids and codes are unique, and so are a property's codes of room types and numbers of rooms;
-- every value fits its column; properties have a code; room types belong to a property of the table
-- and are stocked, and rooms have a number and belong to a property and to a room type of the tables.
pub record IsSound (t : Tables) : Type 0 where
  pub property_keys : Distinct property_key t.properties
  pub profiles : All (λ p. (is_profile p && is_identity p) ≡ true) t.properties
  pub property_codes : All Coded t.properties
  pub room_type_keys : Distinct room_type_key t.room_types
  pub room_type_homes : All (λ rt. has_property rt.property_id t.properties ≡ true) t.room_types
  pub stock : All Stocked t.room_types
  pub room_keys : Distinct room_key t.rooms
  pub numbers : All Numbered t.rooms
  pub room_homes : All (Housed t.properties t.room_types) t.rooms

pub insert_outcome-keeps :
    (P : Tables → Type 0) (valid clash linked : Bool) (before after : Tables)
    → P before
    → (valid ≡ true → clash ≡ false → linked ≡ true → P after)
    → P (insert_outcome valid clash linked before after).1
unfolding insert_outcome
insert_outcome-keeps P false clash linked before after h k = h
insert_outcome-keeps P true true linked before after h k = h
insert_outcome-keeps P true false false before after h k = h
insert_outcome-keeps P true false true before after h k = k refl refl refl

pub call-keeps :
    {A : Type 0} (P : Tables → Type 0) (statement : Statement A) (db : Db)
    → P db.tables
    → P (statement db.tables).1
    → P (call statement db).1.tables
unfolding call
call-keeps P statement db h k =
    under-keeps P (first_fault db.faults) db.tables (statement db.tables) h k

Housed-snoc :
    (ps : List Property) (p : Property) (rts : List RoomType) (rm : PhysicalRoom)
    → Housed ps rts rm
    → Housed (ps ++ p ∷ []) rts rm
unfolding has_property
Housed-snoc ps p rts rm h =
    ground (arith, h, any-snoc (λ (q : Property). q.id == rm.property_id) ps p)

Housed-room_type :
    (ps : List Property) (rts : List RoomType) (rt : RoomType) (rm : PhysicalRoom)
    → Housed ps rts rm
    → Housed ps (rts ++ rt ∷ []) rm
unfolding has_room_type
Housed-room_type ps rts rt rm h =
    ground (arith, h, any-snoc (λ (q : RoomType). q.id == rm.room_type_id) rts rt)

pub add_property-IsSound :
    (t : Tables) (p : Property)
    → IsSound t
    → Coded p
    → (is_profile p && is_identity p) ≡ true
    → any (λ q. property_key q p) t.properties ≡ false
    → IsSound (add_property p t)
unfolding has_property
add_property-IsSound t p s coded valid clash = record {
  property_keys = Distinct-snoc property_key t.properties p s.property_keys clash;
  profiles = All-snoc (λ p. (is_profile p && is_identity p) ≡ true) t.properties p s.profiles valid;
  property_codes = All-snoc Coded t.properties p s.property_codes coded;
  room_type_keys = s.room_type_keys;
  room_type_homes =
      All-imp (λ rt. has_property rt.property_id t.properties ≡ true)
        (λ rt. has_property rt.property_id (t.properties ++ p ∷ []) ≡ true) t.room_types
        (λ rt h. any-snoc (λ (q : Property). q.id == rt.property_id) t.properties p h)
        s.room_type_homes;
  stock = s.stock;
  room_keys = s.room_keys;
  numbers = s.numbers;
  room_homes =
      All-imp (Housed t.properties t.room_types) (Housed (t.properties ++ p ∷ []) t.room_types)
        t.rooms (λ rm h. Housed-snoc t.properties p t.room_types rm h) s.room_homes;
}

pub add_room_type-IsSound :
    (t : Tables) (rt : RoomType)
    → IsSound t
    → Stocked rt
    → any (λ q. room_type_key q rt) t.room_types ≡ false
    → has_property rt.property_id t.properties ≡ true
    → IsSound (add_room_type rt t)
add_room_type-IsSound t rt s stocked clash linked = record {
  property_keys = s.property_keys;
  profiles = s.profiles;
  property_codes = s.property_codes;
  room_type_keys = Distinct-snoc room_type_key t.room_types rt s.room_type_keys clash;
  room_type_homes =
      All-snoc (λ rt. has_property rt.property_id t.properties ≡ true) t.room_types rt
        s.room_type_homes linked;
  stock = All-snoc Stocked t.room_types rt s.stock stocked;
  room_keys = s.room_keys;
  numbers = s.numbers;
  room_homes =
      All-imp (Housed t.properties t.room_types) (Housed t.properties (t.room_types ++ rt ∷ []))
        t.rooms (λ rm h. Housed-room_type t.properties t.room_types rt rm h) s.room_homes;
}

pub add_room-IsSound :
    (t : Tables) (rm : PhysicalRoom)
    → IsSound t
    → Numbered rm
    → any (λ q. room_key q rm) t.rooms ≡ false
    → Housed t.properties t.room_types rm
    → IsSound (add_room rm t)
add_room-IsSound t rm s numbered clash housed = record {
  property_keys = s.property_keys;
  profiles = s.profiles;
  property_codes = s.property_codes;
  room_type_keys = s.room_type_keys;
  room_type_homes = s.room_type_homes;
  stock = s.stock;
  room_keys = Distinct-snoc room_key t.rooms rm s.room_keys clash;
  numbers = All-snoc Numbered t.rooms rm s.numbers numbered;
  room_homes = All-snoc (Housed t.properties t.room_types) t.rooms rm s.room_homes housed;
}

has_property-set_profile :
    (p : Property) (id : ℕ) (rows : List Property)
    → has_property id (set_profile p rows) ≡ has_property id rows
unfolding has_property
has_property-set_profile p id rows = any-set_profile p (λ q. q.id == id) rows (λ row. refl)

pub set_profile-IsSound :
    (t : Tables) (p : Property)
    → IsSound t
    → is_profile p ≡ true
    → IsSound (record t { properties = set_profile p t.properties })
unfolding is_profile is_identity property_key
set_profile-IsSound t p s valid = record {
  property_keys =
      Distinct-set_profile p property_key t.properties (λ row q. refl) (λ q row. refl)
        s.property_keys;
  profiles =
      All-set_profile p (λ p. (is_profile p && is_identity p) ≡ true) t.properties
        (λ row h. ground (arith, valid, h)) s.profiles;
  property_codes = All-set_profile p Coded t.properties (λ row h. h) s.property_codes;
  room_type_keys = s.room_type_keys;
  room_type_homes =
      All-imp (λ rt. has_property rt.property_id t.properties ≡ true)
        (λ rt. has_property rt.property_id (set_profile p t.properties) ≡ true) t.room_types
        (λ rt h. rw (has_property-set_profile p rt.property_id t.properties) h) s.room_type_homes;
  stock = s.stock;
  room_keys = s.room_keys;
  numbers = s.numbers;
  room_homes =
      All-imp (Housed t.properties t.room_types) (Housed (set_profile p t.properties) t.room_types)
        t.rooms (λ rm h. rw (has_property-set_profile p rm.property_id t.properties) h)
        s.room_homes;
}
