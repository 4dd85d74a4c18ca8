-- ===== src/Search.antt =====
-- The part of `queryAvailableProperties` of internal/adapter/http/v1/search_handler.go behind the
-- SQL query: the rows are grouped by property, in the order in which the properties first occur,
-- and a page of the properties is cut out. A row is a property with one available room type.
pub mod Query
pub mod Handler
pub mod Windows
pub mod Joins
pub mod Offers
pub mod Groups
pub mod Pages
pub mod Tests
use doki_core_backend.Prelude.{
  ℕ, ◌-◌, String, List, [], ◌∷◌, ◌++◌, Option, none, some, ◌==◌, if◌then◌else◌, length, take, drop,
}
use doki_core_backend.Prelude.Int.{ℤ, pos, negsuc, ◌+ℤ◌, ◌-ℤ◌, ◌*ℤ◌, ltb_ℤ, wrap64}

-- `dto.AvailableRoomType`.
pub record AvailableRoomType : Type 0 where
  pub room_type_id : ℕ
  pub name : String
  pub capacity : ℤ
  pub nightly_rate_minor : ℤ
  pub currency : String
  pub units_available : ℤ

-- What a row has of its property, without the coordinates.
pub record Place : Type 0 where
  pub code : String
  pub name : String
  pub category : String
  pub city : String
  pub region : String

pub record Row : Type 0 where
  pub property_id : ℕ
  pub place : Place
  pub room_type : AvailableRoomType

-- `dto.PropertySearchResult`.
pub record PropertySearchResult : Type 0 where
  pub property_id : ℕ
  pub place : Place
  pub available_room_types : List AvailableRoomType

-- One turn of the loop over the rows: `propertyMap` and `orderedPropertyIDs` together.
unfoldable pub add_row : Row → List PropertySearchResult → List PropertySearchResult
add_row row [] =
    record {
      property_id = row.property_id;
      place = row.place;
      available_room_types = row.room_type ∷ [];
    }
    ∷ []
add_row row (g ∷ groups) =
    if g.property_id == row.property_id
    then record g { available_room_types = g.available_room_types ++ row.room_type ∷ [] } ∷ groups
    else g ∷ add_row row groups

-- The loop over the rows.
unfoldable pub grouped : List Row → List PropertySearchResult → List PropertySearchResult
unfolding add_row
grouped [] groups = groups
grouped (row ∷ rows) groups = grouped rows (add_row row groups)

-- `if a > total { a = total }`.
unfoldable pub at_most : ℕ → ℤ → ℤ
at_most total a = if ltb_ℤ (pos total) a then pos total else a

module _ {A : Type 0} where
  -- `results[start:end]` by a loop over the indices, `none` where the first index panics.
  unfoldable pub slice : ℤ → ℤ → List A → Option (List A)
  slice (pos start) (pos stop) results = some (take (stop - start) (drop start results))
  slice (pos start) (negsuc stop) results = some []
  slice (negsuc start) stop results = if ltb_ℤ (negsuc start) stop then none else some []

  -- The page of the results, with 64-bit arithmetic.
  unfoldable pub page_of : ℤ → ℤ → List A → Option (List A)
  unfolding slice at_most
  page_of page page_size results =
      let start = at_most (length results) (wrap64 (wrap64 (page -ℤ pos 1) *ℤ page_size)) in
      slice start (at_most (length results) (wrap64 (start +ℤ page_size))) results
