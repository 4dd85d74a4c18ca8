-- ===== src/Search/Groups.antt =====
-- The groups of internal/adapter/http/v1/search_handler.go.
use doki_core_backend.Prelude.{
  ℕ, ◌≡◌, refl, sym, ◌∙◌, List, [], ◌∷◌, ◌++◌, ◌==◌, if◌then◌else◌, Bool-cases, arith, inl, inr,
  inl, inr,
}
use mathlib.Core.List.{append-nil, append_assoc}
use doki_core_backend.Search.{AvailableRoomType, Row, PropertySearchResult, add_row, grouped}

-- The room types that the results list for a property.
unfoldable pub listed : ℕ → List PropertySearchResult → List AvailableRoomType
listed id [] = []
listed id (g ∷ groups) = if g.property_id == id then g.available_room_types else listed id groups

-- The room types of the rows of a property, in their order.
unfoldable pub rooms_of : ℕ → List Row → List AvailableRoomType
rooms_of id [] = []
rooms_of id (row ∷ rows) =
    if row.property_id == id then row.room_type ∷ rooms_of id rows else rooms_of id rows

listed-add_row :
    (id : ℕ) (row : Row) (groups : List PropertySearchResult)
    → listed id (add_row row groups)
      ≡ (if row.property_id == id then listed id groups ++ row.room_type ∷ [] else listed id groups)
unfolding listed add_row
listed-add_row id row [] = ground arith
listed-add_row id row (g ∷ groups) = ground (arith, listed-add_row id row groups)

listed-grouped_onto :
    (id : ℕ) (rows : List Row) (groups : List PropertySearchResult)
    → listed id (grouped rows groups) ≡ listed id groups ++ rooms_of id rows
unfolding grouped rooms_of
listed-grouped_onto id [] groups = sym (append-nil (listed id groups))
listed-grouped_onto id (row ∷ rows) groups =
    listed-grouped_onto id rows (add_row row groups) ∙ (elim (Bool-cases (row.property_id == id)) [
      | inl hit ↦
          rw (listed-add_row id row groups, hit)
            (append_assoc (listed id groups) (row.room_type ∷ []) (rooms_of id rows))
      | inr miss ↦ rw (listed-add_row id row groups, miss) refl
    ])

-- The results list for every property exactly the room types of its rows, in the rows' order.
pub listed-grouped : (id : ℕ) (rows : List Row) → listed id (grouped rows []) ≡ rooms_of id rows
unfolding listed
listed-grouped id rows = listed-grouped_onto id rows []
