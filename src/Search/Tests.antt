-- ===== src/Search/Tests.antt =====
-- Pages and groups at concrete inputs.
use text.Mathlib.TextEquality.{eq_iff}
use doki_core_backend.Prelude.{
  arith, ℕ, ◌*◌, ◌≡◌, List, [], ◌∷◌, none, some, refl, inl, true, ◌&&◌, ◌==◌, take, drop, arith,
}
use doki_core_backend.Prelude.Int.{pos}
use doki_core_backend.Search.{AvailableRoomType, Row, page_of, slice, at_most, add_row, grouped}
use doki_core_backend.Errors.{ok}
use doki_core_backend.Clock.{day}
use doki_core_backend.Inventory.{DailyAllocation, select_window, acquire_hold}
use doki_core_backend.Properties.{Property, RoomType, is_profile, is_identity, has_property, any}
use doki_core_backend.Properties.Service.{lacks_room_type}
use doki_core_backend.Properties.Sound.{IsSound, lacks_room_type-Stocked}
use doki_core_backend.Search.{PropertySearchResult}
use doki_core_backend.Search.Query.{
  SearchDb, joins, is_searched, query_available_properties, run_query, read_results, available_rows,
  property_rows, within, room_type_rows, group_rows, has_nights, min_free, free_units,
}
use doki_core_backend.Search.Handler.{
  SearchParams, asked_of, positive_of, read_natural, read_digits, or_number, search_properties,
  search_days, page_size_of, answer_page, paged, SearchAnswer, found, failure, panic,
}
use doki_core_backend.Clock.Dates.{parse_date}
use doki_core_backend.Properties.Repo.{order_by, arrived}
use doki_core_backend.Faults.{under}
use doki_core_backend.Prelude.Int.{◌-ℤ◌, ◌+ℤ◌, ◌*ℤ◌, wrap64}
use doki_core_backend.Search.Offers.{granted, search-acquire_hold}
use doki_core_backend.Search.Groups.{listed}
use doki_core_backend.Search.Pages.{page_of_lem, page_of_overflow}

abbrev three : List ℕ
three = 7 ∷ 8 ∷ 9 ∷ []

page_of_lem_example : page_of (pos 2) (pos 2) three ≡ some (take 2 (drop (1 * 2) three))
page_of_lem_example = page_of_lem 1 2 three (omega arith) (omega arith) (omega arith)

page_of_overflow_example : page_of (pos 461168601842738792) (pos 20) three ≡ none
page_of_overflow_example =
    page_of_overflow 461168601842738791 20 three (omega arith) (omega arith) (omega arith)
      (omega arith) (omega arith)

abbrev room : ℕ → AvailableRoomType
room id = record {
  room_type_id = id;
  name = "Twin";
  capacity = pos 2;
  nightly_rate_minor = pos 150000;
  currency = "ETB";
  units_available = pos 3;
}

abbrev row : ℕ → ℕ → Row
row property id = record {
  property_id = property;
  place = record {
    code = "DK-01";
    name = "Doki";
    category = "BRANDED";
    city = "Adama";
    region = "Oromia";
  };
  room_type = room id;
}

abbrev hotel : Property
hotel = record {
  id = 1;
  code = "DK-01";
  name = "Doki";
  category = "BRANDED";
  status = "ACTIVE";
  region = "Oromia";
  city = "Adama";
  latitude = none;
  longitude = none;
  base_currency = "ETB";
  check_in_time = "14:00:00";
  check_out_time = "11:00:00";
  owner_user_id = none;
}

abbrev twin : RoomType
twin = record {
  id = 2;
  property_id = 1;
  code = "TWN";
  name = "Twin";
  capacity = pos 2;
  base_rate_minor = pos 150000;
  total_inventory = pos 10;
}

abbrev night : ℕ → DailyAllocation
night d = record {
  id = d;
  property_id = 1;
  room_type_id = 2;
  stay_date = d;
  total_units = pos 3;
  allocated_count = 2;
  blocked_count = 0;
  rate_minor = pos 150000;
}

abbrev catalogue : SearchDb
catalogue = record {
  tables = record { properties = hotel ∷ []; room_types = twin ∷ []; rooms = [] };
  allocations = night 100 ∷ night 101 ∷ [];
  ilike_within = λ a b. true;
  collates_le = λ a b. true;
  faults = [];
}

catalogue-IsSound : IsSound catalogue.tables
unfolding is_profile is_identity has_property any lacks_room_type
catalogue-IsSound = record {
  property_keys = (tt, tt);
  profiles = (refl, tt);
  property_codes = (λ e. absurd (ground (arith, (eq_iff _ "").1 e)), tt);
  room_type_keys = (tt, tt);
  room_type_homes = (refl, tt);
  stock = (lacks_room_type-Stocked twin refl, tt);
  room_keys = tt;
  numbers = tt;
  room_homes = tt;
}

abbrev params : SearchParams
params = record {
  check_in = "0001-04-11";
  check_out = "0001-04-13";
  guests = "2";
  page = "";
  page_size = "";
  region = "";
  city = "adama";
}

search-acquire_hold_example :
    (results : List PropertySearchResult) × (query_available_properties 0 catalogue
        (asked_of params 100 102)
      ≡ ok results)
    × (any (λ r. r.room_type_id == 2) (listed 1 results) ≡ (
        is_searched (λ a b. true) (asked_of params 100 102) hotel
        && (joins (asked_of params 100 102) hotel twin
            && granted
                (acquire_hold 0 9 1 2
                  (100 * day)
                  (102 * day)
                  (pos 900)
                  (record { rows = night 100 ∷ night 101 ∷ []; faults = [] })).0)))
unfolding positive_of read_natural read_digits or_number
search-acquire_hold_example =
    search-acquire_hold 0 0 9 100 1 (pos 900) params catalogue hotel twin refl refl
      catalogue-IsSound ((refl, tt), (tt, tt)) (inl refl) (inl refl)

abbrev total_found : SearchAnswer → ℕ
total_found (failure code) = 0
total_found panic = 0
total_found (found results page size total) = total

-- The search finds the hotel for the stay that the parameters name.
search_finds : total_found (search_properties 0 0 catalogue params) ≡ 1
unfolding search_properties search_days parse_date positive_of read_natural or_number page_size_of
    answer_page paged query_available_properties run_query read_results available_rows property_rows
    is_searched within room_type_rows joins group_rows has_nights min_free free_units select_window
    ◌-ℤ◌ ◌+ℤ◌ ◌*ℤ◌ wrap64 page_of slice at_most grouped add_row order_by arrived under read_digits
search_finds = refl
