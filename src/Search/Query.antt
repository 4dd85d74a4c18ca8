-- ===== src/Search/Query.antt =====
-- The availability query of internal/adapter/http/v1/search_handler.go over the tables of
-- properties, room types and daily allocations.
use text.Mathlib.Text.{◌==◌ as str_eq}
use doki_core_backend.Prelude.{
  ℕ, ◌+◌, ◌*◌, ◌/◌, Bool, true, false, ◌&&◌, ◌||◌, String, List, [], ◌∷◌, ◌++◌, ltb, ◌==◌,
  if◌then◌else◌, length,
}
use doki_core_backend.Prelude.Int.{ℤ, pos, negsuc, ◌+ℤ◌, ◌-ℤ◌, leb_ℤ, ltb_ℤ}
use doki_core_backend.Errors.{plain, wrapped, Result, ok, err}
use doki_core_backend.Reservations.{Fault, first_fault, later_faults}
use doki_core_backend.Faults.{under}
use doki_core_backend.Inventory.{DailyAllocation, select_window}
use doki_core_backend.Properties.{Property, RoomType, Tables}
use doki_core_backend.Properties.Repo.{order_by, arrived}
use doki_core_backend.Search.{Row, PropertySearchResult, grouped}

-- The database as the search sees it. `ilike_within a b` is a ILIKE '%' || b || '%', and
-- `collates_le` the order of texts in the database's collation.
pub record SearchDb : Type 0 where
  pub tables : Tables
  pub allocations : List DailyAllocation
  pub ilike_within : String → String → Bool
  pub collates_le : String → String → Bool
  pub faults : List Fault

-- What is asked for: the days of the stay, and the filters.
pub record Asked : Type 0 where
  pub from_day : ℕ
  pub to_day : ℕ
  pub nights : ℕ
  pub guests : ℕ
  pub region : String
  pub city : String

-- total_units - allocated_count - blocked_count, and its minimum; a group is never empty.
unfoldable pub free_units : DailyAllocation → ℤ
free_units a = a.total_units -ℤ pos (a.allocated_count + a.blocked_count)

unfoldable pub min_free : List DailyAllocation → ℤ
min_free [] = pos 0
min_free (a ∷ []) = free_units a
min_free (a ∷ b ∷ rows) =
    let rest = min_free (b ∷ rows) in if leb_ℤ (free_units a) rest then free_units a else rest

unfoldable pub sum_rates : List DailyAllocation → ℤ
sum_rates [] = pos 0
sum_rates (a ∷ rows) = a.rate_minor +ℤ sum_rates rows

-- AVG(…)::BIGINT, which rounds halves away from zero.
unfoldable pub rounded : ℤ → ℕ → ℤ
rounded (pos s) n = pos ((2 * s + n) / (2 * n))
rounded (negsuc s) n = pos 0 -ℤ pos ((2 * (s + 1) + n) / (2 * n))

-- HAVING.
unfoldable pub has_nights : ℕ → List DailyAllocation → Bool
has_nights nights group = length group == nights && ltb_ℤ (pos 0) (min_free group)

abbrev pub search_row : Property → RoomType → List DailyAllocation → Row
search_row p rt group = record {
  property_id = p.id;
  place = record {
    code = p.code;
    name = p.name;
    category = p.category;
    city = p.city;
    region = p.region;
  };
  room_type = record {
    room_type_id = rt.id;
    name = rt.name;
    capacity = rt.capacity;
    nightly_rate_minor = rounded (sum_rates group) (length group);
    currency = p.base_currency;
    units_available = min_free group;
  };
}

-- A group without rows does not come up.
unfoldable pub group_rows : ℕ → Property → RoomType → List DailyAllocation → List Row
group_rows nights p rt [] = []
group_rows nights p rt (a ∷ group) =
    if has_nights nights (a ∷ group) then search_row p rt (a ∷ group) ∷ [] else []

unfoldable pub joins : Asked → Property → RoomType → Bool
joins asked p rt = rt.property_id == p.id && leb_ℤ (pos asked.guests) rt.capacity

unfoldable pub room_type_rows : Asked → List DailyAllocation → Property → List RoomType → List Row
room_type_rows asked allocations p [] = []
room_type_rows asked allocations p (rt ∷ rts) =
    (if joins asked p rt
      then group_rows asked.nights p rt
          (select_window p.id rt.id asked.from_day asked.to_day allocations)
      else [])
    ++ room_type_rows asked allocations p rts

unfoldable pub within : (String → String → Bool) → String → String → Bool
within like text value = str_eq text "" || like value text

unfoldable pub is_searched : (String → String → Bool) → Asked → Property → Bool
is_searched like asked p =
    str_eq p.status "ACTIVE" && (within like asked.region p.region && within like asked.city p.city)

unfoldable pub property_rows : SearchDb → Asked → List Property → List Row
property_rows db asked [] = []
property_rows db asked (p ∷ ps) =
    (if is_searched db.ilike_within asked p
      then room_type_rows asked db.allocations p db.tables.room_types
      else [])
    ++ property_rows db asked ps

-- ORDER BY property_name ASC, avg_rate_minor ASC.
unfoldable pub row_le : (String → String → Bool) → Row → Row → Bool
row_le le a b =
    if le a.place.name b.place.name
    then (if le b.place.name a.place.name
        then leb_ℤ a.room_type.nightly_rate_minor b.room_type.nightly_rate_minor
        else true)
    else false

unfoldable pub available_rows : SearchDb → Asked → List Row
available_rows db asked =
    order_by (row_le db.collates_le) (property_rows db asked db.tables.properties)

-- The call of the query: the number of guests is sent as a SMALLINT.
unfoldable pub run_query : SearchDb → Asked → Result (List Row)
run_query db asked =
    if ltb 32767 asked.guests
    then err (plain "greater than maximum value for int2")
    else (under (first_fault db.faults) tt (ok (available_rows db asked), tt)).0

unfoldable pub read_results : ℕ → Fault → Result (List Row) → Result (List PropertySearchResult)
read_results read f (err e) = err (wrapped "execute availability search" e)
read_results read f (ok rows) = ok (grouped (arrived read rows (under f tt (ok tt, tt)).0) [])

-- `queryAvailableProperties` up to the page: an iteration that breaks off after `read` rows is not
-- noticed.
unfoldable pub query_available_properties :
    ℕ → SearchDb → Asked → Result (List PropertySearchResult)
query_available_properties read db asked =
    read_results read (first_fault (later_faults db.faults)) (run_query db asked)
