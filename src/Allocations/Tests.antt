-- ===== src/Allocations/Tests.antt =====
-- The rolling horizon at concrete inputs.
use doki_core_backend.Prelude.{◌+◌, ◌≤◌, [], ◌∷◌, replicate, none, some, true}
use doki_core_backend.Prelude.Int.{pos}
use doki_core_backend.Errors.{ok}
use doki_core_backend.Inventory.{Inventory}
use doki_core_backend.Allocations.{
  Env, horizon_of, generate_rolling_allocations, process_all_active_properties,
}
use doki_core_backend.Allocations.Reach.{repositories, process_all-at_most_20}
use doki_core_backend.Properties.{Db, Property, RoomType}
use doki_core_backend.Allocations.Horizon.{ports, Provides, generate_rolling_allocations-Provides}

abbrev env : Env
env = record { ctx_err = none; now = 86400000000000; uuids = λ i. i + 500 }

abbrev empty : Inventory
empty = record { rows = []; faults = [] }

generate_rolling_allocations-Provides_example :
    Provides
      (λ i. i)
      (λ n w. (ok [], w))
      (λ p w. (ok [], w))
      env
      1
      2
      (pos 10)
      (pos 150000)
      0
      (horizon_of (pos 250))
      []
      (generate_rolling_allocations
        (ports (λ i. i) (λ n w. (ok [], w)) (λ p w. (ok [], w)))
        env
        1
        2
        (pos 10)
        (pos 150000)
        (pos 250)
        empty)
generate_rolling_allocations-Provides_example =
    generate_rolling_allocations-Provides (λ i. i) (λ n w. (ok [], w)) (λ p w. (ok [], w)) env 1 2
      (pos 10) (pos 150000) (pos 250) empty

abbrev active : Property
active = record {
  id = 1;
  code = "DK-01";
  name = "Doki";
  category = "BRANDED";
  status = "ACTIVE";
  region = "Oromia";
  city = "Adama";
  latitude = none;
  longitude = none;
  base_currency = "ETB";
  check_in_time = "14:00:00";
  check_out_time = "11:00:00";
  owner_user_id = none;
}

abbrev twin : RoomType
twin = record {
  id = 2;
  property_id = 1;
  code = "TWN";
  name = "Twin";
  capacity = pos 2;
  base_rate_minor = pos 150000;
  total_inventory = pos 10;
}

-- Rows for 25 properties.
abbrev catalogue : Db
catalogue = record {
  tables = record { properties = replicate 25 active; room_types = twin ∷ []; rooms = [] };
  owners = λ id. true;
  cast_time = λ text. some text;
  cast_degrees = λ n x. some x;
  collates_le = λ s t. true;
  faults = [];
}

process_all-at_most_20_example :
    (process_all_active_properties
      (repositories (λ i. i))
      env
      (pos 30)
      (record { properties = catalogue; inventory = empty })).0.1.properties
    ≤ 20
process_all-at_most_20_example =
    process_all-at_most_20 (λ i. i) env (pos 30)
      (record { properties = catalogue; inventory = empty })
