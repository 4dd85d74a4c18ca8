-- ===== src/Allocations.antt =====
-- `AllocationService` of internal/domain/inventory/allocation_service.go, over the two repositories
-- it is given.
pub mod Horizon
pub mod Reach
pub mod Tests
use doki_core_backend.Prelude.{
  ℕ, zero, suc, ◌+◌, Bool, ◌||◌, String, List, [], ◌∷◌, ◌++◌, Option, none, some, leb, ◌==◌,
  if◌then◌else◌, length,
}
use doki_core_backend.Prelude.Int.{ℤ, pos, negsuc}
use doki_core_backend.Errors.{Err, wrapped, Result, ok, err}
use doki_core_backend.Clock.{date}
use doki_core_backend.Inventory.{DailyAllocation}

-- The fields of `property.RoomType` and `property.Property` that the service reads.
pub record RoomType : Type 0 where
  pub id : ℕ
  pub total_inventory : ℤ
  pub base_rate_minor : ℤ

-- `inventoryRepo` and `propertyRepo`; `list_active` is ListProperties for the active properties
-- under a limit, and replies with their ids.
pub record AllocationPorts (W : Type 0) : Type 0 where
  pub batch_upsert : List DailyAllocation → W → Result (Unit {0}) × W
  pub list_active : ℕ → W → Result (List ℕ) × W
  pub list_room_types : ℕ → W → Result (List RoomType) × W

-- What a call takes from its surroundings: the error of the context, the time, and the random ids.
pub record Env : Type 0 where
  pub ctx_err : Option Err
  pub now : ℕ
  pub uuids : ℕ → ℕ

-- `daysAhead <= 0` means 365.
unfoldable pub horizon_of : ℤ → ℕ
horizon_of (pos zero) = 365
horizon_of (pos (suc n)) = suc n
horizon_of (negsuc n) = 365

-- The allocation of the day `i` days ahead.
abbrev pub allocation : Env → ℕ → ℕ → ℤ → ℤ → ℕ → DailyAllocation
allocation env property room_type total rate i = record {
  id = env.uuids i;
  property_id = property;
  room_type_id = room_type;
  stay_date = date env.now + i;
  total_units = total;
  allocated_count = 0;
  blocked_count = 0;
  rate_minor = rate;
}

module _ {W : Type 0} (ports : AllocationPorts W) where
  -- A chunk is written and the loop goes on with an empty one, or ends with the error.
  unfoldable pub written :
      (W → Result (Unit {0}) × W) → Result (Unit {0}) × W → Result (Unit {0}) × W
  written go_on (err e, w) = (err (wrapped "upsert allocations chunk" e), w)
  written go_on (ok _, w) = go_on w

  -- The loop from day `i` on, with so many days to go: a chunk is written when it has 100 days, or
  -- at the last day.
  unfoldable pub generate_loop :
      (ℕ → DailyAllocation) → ℕ → ℕ → List DailyAllocation → W → Result (Unit {0}) × W
  unfolding written
  generate_loop alloc zero i chunk w = (ok tt, w)
  generate_loop alloc (suc days) i chunk w =
      let longer = chunk ++ alloc i ∷ [] in
      let waiting : W → Result (Unit {0}) × W = generate_loop alloc days (suc i) longer in
      let flushed : W → Result (Unit {0}) × W =
        λ v. written (generate_loop alloc days (suc i) []) (ports.batch_upsert longer v) in
      (if leb 100 (length longer) || days == 0 then flushed else waiting) w

  -- `GenerateRollingAllocations`.
  unfoldable pub generate_rolling_allocations : Env → ℕ → ℕ → ℤ → ℤ → ℤ → W → Result (Unit {0}) × W
  generate_rolling_allocations env property room_type total rate days_ahead w = elim env.ctx_err [
    | some e ↦ (err e, w)
    | none ↦
        generate_loop (allocation env property room_type total rate) (horizon_of days_ahead) 0 [] w
  ]

  -- `SeedNewRoomTypeInventory`.
  unfoldable pub seed_new_room_type_inventory : Env → ℕ → RoomType → W → Result (Unit {0}) × W
  seed_new_room_type_inventory env property rt w =
      generate_rolling_allocations env property rt.id rt.total_inventory rt.base_rate_minor
        (pos 365) w

  -- The counts of properties, room types and allocations.
  pub record Counts : Type 0 where
    pub properties : ℕ
    pub room_types : ℕ
    pub allocations : ℕ

  process_room_types : Env → ℕ → ℕ → List RoomType → Counts → W → (Option Err × Counts) × W
  process_room_types env days property [] n w = ((none, n), w)
  process_room_types env days property (rt ∷ rts) n w =
      let (reply, w1) =
        generate_rolling_allocations env property rt.id rt.total_inventory rt.base_rate_minor
          (pos days) w in
      elim reply [
        | err e ↦ ((some (wrapped "generate allocations for room type" e), n), w1)
        | ok _ ↦
            process_room_types env days property rts
              (record n { room_types = suc n.room_types; allocations = n.allocations + days }) w1
      ]

  -- The next property, unless a room type has failed.
  next_property :
      (Counts → W → (Option Err × Counts) × W)
      → (Option Err × Counts) × W
      → (Option Err × Counts) × W
  next_property go_on ((some e, n), w) = ((some e, n), w)
  next_property go_on ((none, n), w) = go_on n w

  -- A property whose room types are listed; one without any is passed over.
  process_property :
      Env
      → ℕ
      → ℕ
      → (Counts → W → (Option Err × Counts) × W)
      → Counts
      → Result (List RoomType) × W
      → (Option Err × Counts) × W
  process_property env days p go_on n (err e, w) =
      ((some (wrapped "list room types for property" e), n), w)
  process_property env days p go_on n (ok [], w) = go_on n w
  process_property env days p go_on n (ok (rt ∷ rts), w) =
      next_property go_on
        (process_room_types env days p (rt ∷ rts) (record n { properties = suc n.properties }) w)

  process_properties : Env → ℕ → List ℕ → Counts → W → (Option Err × Counts) × W
  unfolding process_room_types process_property next_property
  process_properties env days [] n w = ((none, n), w)
  process_properties env days (p ∷ ps) n w =
      process_property env days p (process_properties env days ps) n (ports.list_room_types p w)

  process_listed : Env → ℕ → Result (List ℕ) × W → (Option Err × Counts) × W
  unfolding process_properties
  process_listed env days (err e, w) = (
    (
      some (wrapped "list active properties" e),
      record { properties = 0; room_types = 0; allocations = 0 },
    ),
    w,
  )
  process_listed env days (ok ps, w) =
      process_properties env days ps (record { properties = 0; room_types = 0; allocations = 0 }) w

  -- `ProcessAllActiveProperties`: the error, if there is one, and the counts so far.
  unfoldable pub process_all_active_properties : Env → ℤ → W → (Option Err × Counts) × W
  unfolding process_listed
  process_all_active_properties env days_ahead w =
      process_listed env (horizon_of days_ahead) (ports.list_active 1000 w)
