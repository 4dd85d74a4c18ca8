-- ===== src/Properties/Kept.antt =====
-- The service of internal/domain/property/service.go keeps the invariant of the tables.
use Prim.Native.Char.{Char}
use doki_core_backend.Prelude.Int.{ℤ}
use text.Mathlib.TextEquality.{eq_iff}
use doki_core_backend.Prelude.{
  ℕ, ◌≡◌, ◌∙◌, ap, refl, false, arith, inl, inr, Bool, ◌&&◌, String, ◌==◌, Option, none, some,
  Bool-cases,
}
use doki_core_backend.Errors.{Err, Result, ok, err}
use doki_core_backend.Properties.{
  Property, RoomType, PhysicalRoom, Tables, Db, is_profile, is_identity, any, property_key,
  room_type_key, room_key, has_property, has_room_type, owner_known, add_property, add_room_type,
  add_room, kept_as, columns, insert_columns, insert_property, insert_room_type, insert_with_floor,
  insert_room, fits_varchar, fits_int32,
}
use doki_core_backend.Properties.Repo.{
  set_placed, update_profile, with_defaults, or_fresh, select_rows, first,
}
use doki_core_backend.Properties.Repo
use doki_core_backend.Properties.Service.{
  World, lacks_room_type, lacks_text, create_trimmed, after_create, filled, trimmed, on_db,
  update_row, after_get, merged, create_room_type_trimmed, create_room_trimmed, lacks_room,
  room_type_trimmed, room_trimmed,
}
use doki_core_backend.Properties.Service
use doki_core_backend.Properties.Sound.{
  IsSound, Stocked, Coded, Numbered, lacks_room_type-Stocked, insert_outcome-keeps, call-keeps,
  add_property-IsSound, add_room_type-IsSound, add_room-IsSound, set_profile-IsSound,
}

kept_same : {p q : Property} → some p ≡ some q → p ≡ q
kept_same h = cc

kept_as-Coded :
    (p row : Property) (a d : Option String) (la lo : Option (Option ℤ)) (c : Option String)
    → Coded p
    → kept_as p a d la lo c ≡ some row
    → Coded row
unfolding kept_as
kept_as-Coded p row (some a) (some d) (some la) (some lo) (some c) k h =
    let same : p.code ≡ row.code = ap (λ (q : Property). q.code) (kept_same h) in λ e. k (same ∙ e)
kept_as-Coded p row none d la lo c k h = cc
kept_as-Coded p row (some a) none la lo c k h = cc
kept_as-Coded p row (some a) (some d) none lo c k h = cc
kept_as-Coded p row (some a) (some d) (some la) none c k h = cc
kept_as-Coded p row (some a) (some d) (some la) (some lo) none k h = cc

insert_columns-IsSound :
    (owners : ℕ → Bool) (kept : Option Property) (t : Tables)
    → ((row : Property) → kept ≡ some row → Coded row)
    → IsSound t
    → IsSound (insert_columns owners kept t).1
unfolding insert_columns
insert_columns-IsSound owners none t coded s = s
insert_columns-IsSound owners (some p) t coded s =
    insert_outcome-keeps IsSound (is_profile p && is_identity p)
      (any (λ q. property_key q p) t.properties) (owner_known owners p.owner_user_id) t
      (add_property p t) s
      (λ valid clash linked. add_property-IsSound t p s (coded p refl) valid clash)

insert_room_type-IsSound :
    (rt : RoomType) (t : Tables) → Stocked rt → IsSound t → IsSound (insert_room_type rt t).1
unfolding insert_room_type
insert_room_type-IsSound rt t stocked s =
    insert_outcome-keeps IsSound
      ((fits_varchar 10 rt.code && fits_varchar 100 rt.name) && fits_int32 rt.total_inventory)
      (any (λ q. room_type_key q rt) t.room_types) (has_property rt.property_id t.properties) t
      (add_room_type rt t) s
      (λ valid clash linked. add_room_type-IsSound t rt s stocked clash linked)

insert_room-IsSound :
    (rm : PhysicalRoom) (floor : Option (Option String)) (t : Tables)
    → Numbered rm
    → IsSound t
    → IsSound (insert_with_floor rm floor t).1
unfolding insert_with_floor room_key
insert_room-IsSound rm none t numbered s = s
insert_room-IsSound rm (some floor) t numbered s =
    insert_outcome-keeps IsSound (fits_varchar 20 rm.room_number) (any (λ q. room_key q rm) t.rooms)
      (has_property rm.property_id t.properties && has_room_type rm.room_type_id t.room_types) t
      (add_room (record rm { floor = floor }) t) s
      (λ valid clash linked.
        add_room-IsSound t (record rm { floor = floor }) s numbered clash linked)

set_placed-IsSound : (p : Option Property) (t : Tables) → IsSound t → IsSound (set_placed p t).1
unfolding set_placed
set_placed-IsSound none t s = s
set_placed-IsSound (some p) t s = elim (Bool-cases (is_profile p)) [
  | inl valid ↦ rw valid (set_profile-IsSound t p s valid)
  | inr bad ↦ rw bad s
]

full-Coded : (p : Property) → lacks_text p ≡ false → Coded p
unfolding lacks_text
full-Coded p h e = ground (arith, h, (eq_iff p.code "").1 e)

full-Numbered : (rm : PhysicalRoom) → lacks_room rm ≡ false → Numbered rm
unfolding lacks_room
full-Numbered rm h e = ground (arith, h, (eq_iff rm.room_number "").1 e)

abbrev pub SoundWorld : World → Type 0
SoundWorld w = IsSound w.db.tables

after_create-SoundWorld :
    (reply : Result Property) (w : World) → SoundWorld w → SoundWorld (after_create reply w).1
unfolding after_create
after_create-SoundWorld (ok p) w s = s
after_create-SoundWorld (err e) w s = s

pub create_property-SoundWorld :
    (table : Char → Char) (ctx : Option Err) (uuid : ℕ) (p : Property) (owner : Option ℕ)
    (w : World)
    → SoundWorld w
    → SoundWorld (Service.create_property table ctx uuid p owner w).1
unfolding Service.create_property create_trimmed Repo.create_property insert_property columns
create_property-SoundWorld table (some e) uuid p owner w s = s
create_property-SoundWorld table none uuid p owner w s =
    elim (Bool-cases (lacks_text (trimmed table p))) [
      | inl lacks ↦ rw lacks s
      | inr full ↦ rw full (
          let q = with_defaults uuid (filled uuid owner (trimmed table p)) in
          after_create-SoundWorld _ _ (
            call-keeps IsSound (insert_property w.db q) w.db s (
              insert_columns-IsSound w.db.owners (columns w.db q) w.db.tables
                (λ row. kept_as-Coded q row _ _ _ _ _ (full-Coded (trimmed table p) full)) s)))
    ]

pub get_by_id-keeps :
    (id : ℕ) (db : Db) → IsSound db.tables → IsSound (Repo.get_property_by_id id db).1.tables
unfolding Repo.get_property_by_id
get_by_id-keeps id db s =
    call-keeps IsSound (λ t. (first (select_rows (λ (p : Property). p.id == id) t.properties), t))
      db s s

after_get-keeps :
    (p : Property) (found : Result Property) (db : Db)
    → IsSound db.tables
    → IsSound (after_get p found db).1.tables
unfolding after_get Repo.update_property
after_get-keeps p (err e) db s = s
after_get-keeps p (ok row) db s =
    call-keeps IsSound (update_profile db (merged p row)) db s
      (unfold update_profile in set_placed-IsSound _ db.tables s)

pub update_property-SoundWorld :
    (ctx : Option Err) (p : Property) (w : World)
    → SoundWorld w
    → SoundWorld (Service.update_property ctx p w).1
unfolding Service.update_property on_db update_row
update_property-SoundWorld (some e) p w s = s
update_property-SoundWorld none p w s =
    after_get-keeps p _ (Repo.get_property_by_id p.id w.db).1 (get_by_id-keeps p.id w.db s)

pub create_room_type-SoundWorld :
    (table : Char → Char) (ctx : Option Err) (uuid : ℕ) (rt : RoomType) (w : World)
    → SoundWorld w
    → SoundWorld (Service.create_room_type table ctx uuid rt w).1
unfolding Service.create_room_type on_db create_room_type_trimmed Repo.create_room_type
create_room_type-SoundWorld table (some e) uuid rt w s = s
create_room_type-SoundWorld table none uuid rt w s =
    elim (Bool-cases (lacks_room_type (room_type_trimmed table rt))) [
      | inl lacks ↦ rw lacks s
      | inr full ↦ rw full (
          let q = record (room_type_trimmed table rt) {
            id = or_fresh uuid (or_fresh uuid rt.id);
          } in
          call-keeps IsSound (insert_room_type q) w.db s (
            insert_room_type-IsSound q w.db.tables
              (lacks_room_type-Stocked (room_type_trimmed table rt) full) s))
    ]

pub create_room-SoundWorld :
    (ctx : Option Err) (uuid : ℕ) (rm : PhysicalRoom) (w : World)
    → SoundWorld w
    → SoundWorld (Service.create_room ctx uuid rm w).1
unfolding Service.create_room on_db create_room_trimmed Repo.create_room
create_room-SoundWorld (some e) uuid rm w s = s
create_room-SoundWorld none uuid rm w s = elim (Bool-cases (lacks_room (room_trimmed rm))) [
  | inl lacks ↦ rw lacks s
  | inr full ↦ rw full (
      let q = record (room_trimmed rm) { id = or_fresh uuid (or_fresh uuid rm.id) } in
      call-keeps IsSound (insert_room q) w.db s (
        unfold insert_room in
        insert_room-IsSound q _ w.db.tables (full-Numbered (room_trimmed rm) full) s))
]
