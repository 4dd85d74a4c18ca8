-- ===== src/Inventory/Tests.antt =====
-- The table of daily allocations at concrete inputs.
use doki_core_backend.Prelude.{ℕ, ◌*◌, refl, [], ◌∷◌}
use doki_core_backend.Prelude.Int.{pos}
use doki_core_backend.Errors.{cancelled}
use doki_core_backend.Clock.{day, date, nights_between}
use doki_core_backend.Reservations.{no_fault, lost}
use doki_core_backend.Inventory.{DailyAllocation, Inventory}
use doki_core_backend.Inventory.Commit.{commit_allocation}
use doki_core_backend.Inventory.Commit.Units.{Takes, commit_allocation-Takes}
use doki_core_backend.Inventory.Commit.Bounded.{AllBounded, bounded, commit_allocation-AllBounded}
use doki_core_backend.Inventory.Upsert.{batch_upsert_daily_allocations}
use doki_core_backend.Inventory.Upsert.Batch.{Upserts, batch_upsert-Upserts}

abbrev night : ℕ → ℕ → DailyAllocation
night id d = record {
  id = id;
  property_id = 1;
  room_type_id = 2;
  stay_date = d;
  total_units = pos 3;
  allocated_count = 2;
  blocked_count = 0;
  rate_minor = pos 150000;
}

-- Two nights with one unit left each; the reply of the commit is lost.
abbrev two_nights : Inventory
two_nights = record {
  rows = night 1 100 ∷ night 2 101 ∷ [];
  faults = no_fault ∷ no_fault ∷ no_fault ∷ no_fault ∷ lost cancelled ∷ [];
}

commit_allocation-Takes_example :
    Takes 1 2
      (date (100 * day))
      (date (102 * day))
      (nights_between (100 * day) (102 * day))
      two_nights.rows
      (commit_allocation 1 2 (100 * day) (102 * day) two_nights)
commit_allocation-Takes_example = commit_allocation-Takes 1 2 (100 * day) (102 * day) two_nights

commit_allocation-AllBounded_example :
    AllBounded (commit_allocation 1 2 (100 * day) (102 * day) two_nights).1.rows
unfolding bounded
commit_allocation-AllBounded_example =
    commit_allocation-AllBounded 1 2 (100 * day) (102 * day) two_nights (refl, (refl, tt))

batch_upsert-Upserts_example :
    Upserts
      (night 0 101 ∷ night 0 102 ∷ [])
      two_nights.rows
      (batch_upsert_daily_allocations (λ i. i) (night 0 101 ∷ night 0 102 ∷ []) two_nights)
batch_upsert-Upserts_example =
    batch_upsert-Upserts (λ i. i) (night 0 101 ∷ night 0 102 ∷ []) two_nights
