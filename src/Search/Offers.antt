-- ===== src/Search/Offers.antt =====
-- What the search of internal/adapter/http/v1/search_handler.go offers, against what `AcquireHold`
-- of internal/adapter/repository/postgres/inventory_repo.go grants.
use doki_core_backend.Prelude.{
  ℕ, suc, ◌+◌, ◌*◌, ◌≡◌, refl, ◌∙◌, ap, Bool, true, false, not, ◌&&◌, ◌||◌, List, [], ltb, ◌==◌,
  arith, length,
}
use doki_core_backend.Prelude.Int.{ℤ}
use doki_core_backend.Errors.{Result, ok, err}
use doki_core_backend.Clock.{day, date, nights_between}
use doki_core_backend.Redis.Keys.{Token}
use doki_core_backend.Faults.{under}
use doki_core_backend.Inventory.{
  DailyAllocation, select_window, order_by_date, any_full, acquire_hold, hold_of,
  get_daily_allocations, tx_call,
}
use doki_core_backend.Inventory.Upsert.{same_slot}
use doki_core_backend.Properties.{Property, RoomType, any}
use doki_core_backend.Properties.Keys.{Distinct, Listed}
use doki_core_backend.Properties.Repo.{arrived}
use doki_core_backend.Properties.Sound.{IsSound}
use doki_core_backend.Search.{PropertySearchResult, grouped}
use doki_core_backend.Search.Groups.{listed, listed-grouped}
use doki_core_backend.Search.Query.{
  SearchDb, Asked, joins, is_searched, property_rows, available_rows, run_query, read_results,
  query_available_properties, row_le,
}
use doki_core_backend.Search.Handler.{SearchParams, asked_of}
use doki_core_backend.Search.Windows.{length-window, has_nights-acquired}
use doki_core_backend.Search.Joins.{any-order, any-rooms_of, is_of, stays, offered, any-properties}

abbrev pub granted : Result (Token × ℤ) → Bool
granted (ok hold) = true
granted (err e) = false

granted-hold_of :
    (p q uuid now nights : ℕ) (ttl : ℤ) (allocs : List DailyAllocation)
    → granted (hold_of p q uuid now nights ttl (ok allocs))
      ≡ not (ltb (length allocs) nights || any_full allocs)
unfolding hold_of
granted-hold_of p q uuid now nights ttl allocs = ground arith

date_of_day : (d : ℕ) → date (d * day) ≡ d
date_of_day d = omega arith

nights_of_days : (d n : ℕ) → nights_between (d * day) ((d + n) * day) ≡ n
nights_of_days d n = omega arith

in_order : (d n : ℕ) → ltb (d * day) ((d + suc n) * day) ≡ true
in_order d n = ground arith

-- `AcquireHold` where the database answers.
granted-acquire_hold :
    (now uuid p q ci n : ℕ) (ttl : ℤ) (rows : List DailyAllocation)
    → granted
        (acquire_hold now uuid p q
          (ci * day)
          ((ci + suc n) * day)
          ttl
          (record { rows = rows; faults = [] })).0
      ≡ not (
          ltb (length (order_by_date (select_window p q ci (ci + suc n) rows))) (suc n)
          || any_full (order_by_date (select_window p q ci (ci + suc n) rows)))
unfolding acquire_hold get_daily_allocations tx_call
granted-acquire_hold now uuid p q ci n ttl rows =
    rw (in_order ci n, date_of_day ci, date_of_day (ci + suc n), nights_of_days ci (suc n))
      (granted-hold_of p q uuid now (suc n) ttl
        (order_by_date (select_window p q ci (ci + suc n) rows)))

-- The two agree on the stay of a room type.
offered-granted :
    (params : SearchParams) (db : SearchDb) (pr : Property) (rt : RoomType) (now uuid ci n : ℕ)
    (ttl : ℤ)
    → Distinct same_slot db.allocations
    → offered (asked_of params ci (ci + suc n)) n db.allocations pr rt ≡ (
        joins (asked_of params ci (ci + suc n)) pr rt
        && granted
            (acquire_hold now uuid pr.id rt.id
              (ci * day)
              ((ci + suc n) * day)
              ttl
              (record { rows = db.allocations; faults = [] })).0)
unfolding joins
offered-granted params db pr rt now uuid ci n ttl slots =
    rw
      (
        granted-acquire_hold now uuid pr.id rt.id ci n ttl db.allocations,
        has_nights-acquired n (select_window pr.id rt.id ci (ci + suc n) db.allocations)
            (length-window pr.id rt.id ci (suc n) db.allocations slots),
      )
      refl

asked_stays :
    (params : SearchParams) (db : SearchDb) (ci n : ℕ)
    → asked_of params ci (ci + suc n) ≡ stays (asked_of params ci (ci + suc n)) n db.allocations
asked_stays params db ci n = rw (nights_of_days ci (suc n)) refl

any-available :
    (params : SearchParams) (db : SearchDb) (pr : Property) (rt : RoomType) (ci n : ℕ)
    → IsSound db.tables
    → Listed pr db.tables.properties
    → Listed rt db.tables.room_types
    → any (is_of pr.id rt.id) (available_rows db (asked_of params ci (ci + suc n))) ≡ (
        is_searched db.ilike_within (asked_of params ci (ci + suc n)) pr
        && offered (asked_of params ci (ci + suc n)) n db.allocations pr rt)
unfolding available_rows is_searched
any-available params db pr rt ci n sound l m =
    let asked = asked_of params ci (ci + suc n) in
    any-order (is_of pr.id rt.id) (row_le db.collates_le)
      (property_rows db asked db.tables.properties)
    ∙ ap (λ a. any (is_of pr.id rt.id) (property_rows db a db.tables.properties))
        (asked_stays params db ci n)
    ∙ any-properties db asked n pr rt db.tables.properties sound.property_keys l
        sound.room_type_keys m

answered_query :
    (read : ℕ) (db : SearchDb) (asked : Asked)
    → db.faults ≡ []
    → ltb 32767 asked.guests ≡ false
    → query_available_properties read db asked ≡ ok (grouped (available_rows db asked) [])
unfolding query_available_properties run_query read_results arrived under
answered_query read db asked f g = rw (f, g) refl

-- For a stay of at least one night, on a database that answers and keeps its keys, the search
-- succeeds and lists a room type of a property exactly if the property is active and matches the
-- region and the city, the room type is the property's and takes the guests, and `AcquireHold` grants
-- it for the stay.
pub search-acquire_hold :
    (read now uuid ci n : ℕ) (ttl : ℤ) (params : SearchParams) (db : SearchDb) (pr : Property)
    (rt : RoomType)
    → db.faults ≡ []
    → ltb 32767 (asked_of params ci (ci + suc n)).guests ≡ false
    → IsSound db.tables
    → Distinct same_slot db.allocations
    → Listed pr db.tables.properties
    → Listed rt db.tables.room_types
    → (results : List PropertySearchResult) × (query_available_properties read db
          (asked_of params ci (ci + suc n))
        ≡ ok results)
      × (any (λ r. r.room_type_id == rt.id) (listed pr.id results) ≡ (
          is_searched db.ilike_within (asked_of params ci (ci + suc n)) pr
          && (joins (asked_of params ci (ci + suc n)) pr rt
              && granted
                  (acquire_hold now uuid pr.id rt.id
                    (ci * day)
                    ((ci + suc n) * day)
                    ttl
                    (record { rows = db.allocations; faults = [] })).0)))
search-acquire_hold read now uuid ci n ttl params db pr rt f g sound slots l m =
    let asked = asked_of params ci (ci + suc n) in
    let rows = available_rows db asked in
    (
      grouped rows [],
      answered_query read db asked f g,
      ap (λ rs. any (λ r. r.room_type_id == rt.id) rs) (listed-grouped pr.id rows)
          ∙ any-rooms_of pr.id rt.id rows
          ∙ any-available params db pr rt ci n sound l m
          ∙ ap (λ b. is_searched db.ilike_within asked pr && b)
              (offered-granted params db pr rt now uuid ci n ttl slots),
    )
