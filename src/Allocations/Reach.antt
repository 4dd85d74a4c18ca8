-- ===== src/Allocations/Reach.antt =====
-- `ProcessAllActiveProperties` of internal/domain/inventory/allocation_service.go on the two
-- PostgreSQL repositories, as cmd/worker/main.go wires them: how many properties it reaches.
use doki_core_backend.Prelude.{
  ℕ, suc, ◌+◌, ◌≤◌, ◌≡◌, refl, String, List, [], ◌∷◌, Option, none, some, arith, Bool, map, length,
  length-map, length-take,
}
use doki_core_backend.Prelude.Int.{ℤ, pos}
use doki_core_backend.Errors.{Err, Result, ok, err}
use doki_core_backend.Reservations.{Fault, no_fault, refused, lost, first_fault}
use doki_core_backend.Faults.{under}
use doki_core_backend.Inventory.{Inventory}
use doki_core_backend.Inventory.Upsert.{batch_upsert_daily_allocations}
use doki_core_backend.Properties.{Db, call, Property}
use doki_core_backend.Properties
use doki_core_backend.Properties.Repo.{
  PropertyFilter, list_properties, list_room_types_by_property, select_properties, iterated,
  after_read, page_limit,
}
use doki_core_backend.Allocations.{
  AllocationPorts, RoomType, Env, Counts, process_room_types, process_properties, process_listed,
  process_property, next_property, process_all_active_properties, generate_rolling_allocations,
  horizon_of,
}

-- The two repositories of the worker.
pub record Stores : Type 0 where
  pub properties : Db
  pub inventory : Inventory

abbrev pub active_under : ℕ → PropertyFilter
active_under limit = record {
  region = none;
  city = none;
  category = none;
  status = some "ACTIVE";
  limit = pos limit;
  offset = pos 0;
}

module _ {A B : Type 0} where
  unfoldable pub replying : (A → B) → Result A × Db → Stores → Result B × Stores
  replying f (ok v, db) w = (ok (f v), record w { properties = db })
  replying f (err e, db) w = (err e, record w { properties = db })

abbrev pub stock_of : Properties.RoomType → RoomType
stock_of rt = record {
  id = rt.id;
  total_inventory = rt.total_inventory;
  base_rate_minor = rt.base_rate_minor;
}

abbrev pub repositories : (ℕ → ℕ) → AllocationPorts Stores
repositories uuids = record {
  batch_upsert = λ items w.
      let (reply, inventory) = batch_upsert_daily_allocations uuids items w.inventory in
      (reply, record w { inventory = inventory });
  list_active =
      λ limit w. replying (map (λ p. p.id)) (list_properties (active_under limit) w.properties) w;
  list_room_types = λ id w. replying (map stock_of) (list_room_types_by_property id w.properties) w;
}

module _ {W : Type 0} (ports : AllocationPorts W) (env : Env) where
  room_types-properties :
      (days property : ℕ) (rts : List RoomType) (n : Counts ports) (w : W)
      → (process_room_types ports env days property rts n w).0.1.properties ≡ n.properties
  unfolding process_room_types
  room_types-properties days property [] n w = refl
  room_types-properties days property (rt ∷ rts) n w =
      let w1 =
        (generate_rolling_allocations ports env property rt.id rt.total_inventory rt.base_rate_minor
          (pos days) w).1 in
      ground (
        arith,
        room_types-properties days property rts
            (record n { room_types = suc n.room_types; allocations = n.allocations + days }) w1,
      )

  -- From the count `n`, no more than `k` properties are counted by what goes on.
  abbrev AtMost : ℕ → (Counts ports → W → (Option Err × Counts ports) × W) → Type 0
  AtMost k go_on = (m : Counts ports) (v : W) → (go_on m v).0.1.properties ≤ m.properties + k

  next-AtMost :
      (k c : ℕ) (go_on : Counts ports → W → (Option Err × Counts ports) × W)
      (out : (Option Err × Counts ports) × W)
      → AtMost k go_on
      → out.0.1.properties ≡ suc c
      → (next_property ports go_on out).0.1.properties ≤ c + suc k
  unfolding next_property
  next-AtMost k c go_on ((some e, m), v) go h = omega (arith, h)
  next-AtMost k c go_on ((none, m), v) go h = omega (arith, h, go m v)

  property-AtMost :
      (days p k : ℕ) (go_on : Counts ports → W → (Option Err × Counts ports) × W) (n : Counts ports)
      (out : Result (List RoomType) × W)
      → AtMost k go_on
      → (process_property ports env days p go_on n out).0.1.properties ≤ n.properties + suc k
  unfolding process_property
  property-AtMost days p k go_on n (err e, w) go = omega arith
  property-AtMost days p k go_on n (ok [], w) go = omega (arith, go n w)
  property-AtMost days p k go_on n (ok (rt ∷ rts), w) go =
      next-AtMost k n.properties go_on _ go
        (room_types-properties days p (rt ∷ rts) (record n { properties = suc n.properties }) w)

  properties-AtMost :
      (days : ℕ) (ps : List ℕ) → AtMost (length ps) (process_properties ports env days ps)
  unfolding process_properties
  properties-AtMost days [] n w = omega arith
  properties-AtMost days (p ∷ ps) n w =
      property-AtMost days p (length ps) (process_properties ports env days ps) n
        (ports.list_room_types p w) (properties-AtMost days ps)

-- How many properties a listing under the limit that the service asks for has.
abbrev Short : {A : Type 0} → Result (List A) → Type 0
Short (ok ps) = length ps ≤ 20
Short (err e) = Unit

read-Short :
    (f : Fault) (ps : List Property) (t : Properties.Tables)
    → length ps ≤ 20
    → Short (after_read "list properties rows" (under f t (ok ps, t)).0)
unfolding after_read under
read-Short no_fault ps t h = h
read-Short (refused e) ps t h = tt
read-Short (lost e) ps t h = tt

iterated-Short :
    (reply : Result (List Property)) (db : Db)
    → Short reply
    → Short (iterated "list properties query" "list properties rows" (reply, db)).0
unfolding iterated call
iterated-Short (err e) db h = tt
iterated-Short (ok ps) db h = read-Short (first_fault db.faults) ps db.tables h

asked-Short :
    (f : Fault) (ps : List Property) (t : Properties.Tables)
    → length ps ≤ 20
    → Short (under f t (ok ps, t)).0
unfolding under
asked-Short no_fault ps t h = h
asked-Short (refused e) ps t h = tt
asked-Short (lost e) ps t h = tt

selected_short :
    (le : String → String → Bool) (rows : List Property)
    → length (select_properties le (active_under 1000) rows) ≤ 20
unfolding select_properties page_limit
selected_short le rows = omega (arith, length-take {0} 20)

list_properties-Short : (db : Db) → Short (list_properties (active_under 1000) db).0
unfolding list_properties call
list_properties-Short db = iterated-Short _ _ (
    asked-Short (first_fault db.faults) _ db.tables
      (selected_short db.collates_le db.tables.properties))

listed-at_most :
    (ports : AllocationPorts Stores) (env : Env) (days : ℕ) (out : Result (List ℕ) × Stores)
    → Short out.0
    → (process_listed ports env days out).0.1.properties ≤ 20
unfolding process_listed
listed-at_most ports env days (ok ps, w) h = omega (
  arith,
  h,
  properties-AtMost ports env days ps (record { properties = 0; room_types = 0; allocations = 0 })
      w,
)
listed-at_most ports env days (err e, w) h = omega arith

replying-Short :
    (out : Result (List Property) × Db) (w : Stores)
    → Short out.0
    → Short (replying (map (λ (p : Property). p.id)) out w).0
unfolding replying
replying-Short (ok ps, db) w h = omega (arith, length-map ps (λ (p : Property). p.id), h)
replying-Short (err e, db) w h = tt

-- A run of the service counts no more than 20 properties, however many are active: the repository
-- takes the limit of 1000 that the service asks for as one that is not given.
pub process_all-at_most_20 :
    (uuids : ℕ → ℕ) (env : Env) (days_ahead : ℤ) (w : Stores)
    → (process_all_active_properties (repositories uuids) env days_ahead w).0.1.properties ≤ 20
unfolding process_all_active_properties
process_all-at_most_20 uuids env days_ahead w =
    listed-at_most (repositories uuids) env (horizon_of days_ahead) _ (
      replying-Short (list_properties (active_under 1000) w.properties) w
        (list_properties-Short w.properties))
