-- ===== src/Search/Joins.antt =====
-- Of which properties and room types the query of internal/adapter/http/v1/search_handler.go has rows.
use mathlib.Core.Path.{subst}
use doki_core_backend.Prelude.{
  ℕ, suc, ◌≡◌, refl, sym, ◌∙◌, ap, inl, inr, Bool, true, false, ◌&&◌, ◌||◌, List, [], ◌∷◌, ◌++◌,
  ◌==◌, if◌then◌else◌, arith,
}
use doki_core_backend.Inventory.{DailyAllocation, select_window}
use doki_core_backend.Properties.{Property, RoomType, any, property_key, room_type_key}
use doki_core_backend.Properties.Keys.{All, All-Listed, Distinct, Listed}
use doki_core_backend.Properties.Repo.{order_by, insert_in_order}
use doki_core_backend.Search.{Row}
use doki_core_backend.Search.Groups.{rooms_of}
use doki_core_backend.Search.Query.{
  SearchDb, Asked, has_nights, group_rows, joins, room_type_rows, is_searched, property_rows,
}

module _ {A : Type 0} where
  any-append :
      (fits : A → Bool) (xs ys : List A) → any fits (xs ++ ys) ≡ (any fits xs || any fits ys)
  unfolding any
  any-append fits [] ys = refl
  any-append fits (x ∷ xs) ys = ground (arith, any-append fits xs ys)

  any-insert :
      (fits : A → Bool) (le : A → A → Bool) (x : A) (xs : List A)
      → any fits (insert_in_order le x xs) ≡ (fits x || any fits xs)
  unfolding any insert_in_order
  any-insert fits le x [] = refl
  any-insert fits le x (y ∷ ys) = ground (arith, any-insert fits le x ys)

  pub any-order :
      (fits : A → Bool) (le : A → A → Bool) (xs : List A) → any fits (order_by le xs) ≡ any fits xs
  unfolding any order_by
  any-order fits le [] = refl
  any-order fits le (x ∷ xs) =
      ground (arith, any-insert fits le x (order_by le xs), any-order fits le xs)

  any-if :
      (fits : A → Bool) (b : Bool) (xs : List A)
      → any fits (if b then xs else []) ≡ (b && any fits xs)
  unfolding any
  any-if fits true xs = refl
  any-if fits false xs = refl

-- A row of the room type `q` of the property `p`.
abbrev pub is_of : ℕ → ℕ → Row → Bool
is_of p q row = row.property_id == p && row.room_type.room_type_id == q

pub any-rooms_of :
    (p q : ℕ) (rows : List Row)
    → any (λ r. r.room_type_id == q) (rooms_of p rows) ≡ any (is_of p q) rows
unfolding any rooms_of
any-rooms_of p q [] = refl
any-rooms_of p q (row ∷ rows) = ground (arith, any-rooms_of p q rows)

-- A group's row is of its own property and room type only.
any-group :
    (p q nights : ℕ) (pr : Property) (rt : RoomType) (group : List DailyAllocation)
    → any (is_of p q) (group_rows (suc nights) pr rt group)
      ≡ ((pr.id == p && rt.id == q) && has_nights (suc nights) group)
unfolding any group_rows has_nights
any-group p q nights pr rt [] = ground arith
any-group p q nights pr rt (a ∷ group) = ground arith

module _ (asked : Asked) (nights : ℕ) (allocations : List DailyAllocation) where
  abbrev pub stays : Asked
  stays = record asked { nights = suc nights }

  abbrev pub offered : Property → RoomType → Bool
  offered pr rt =
      joins stays pr rt
      && has_nights (suc nights) (select_window pr.id rt.id asked.from_day asked.to_day allocations)

  any-head :
      (p q : ℕ) (pr : Property) (rt : RoomType) (rts : List RoomType)
      → any (is_of p q) (room_type_rows stays allocations pr (rt ∷ rts)) ≡ (
          ((pr.id == p && rt.id == q) && offered pr rt)
          || any (is_of p q) (room_type_rows stays allocations pr rts))
  unfolding room_type_rows
  any-head p q pr rt rts =
      let group = select_window pr.id rt.id asked.from_day asked.to_day allocations in
      let rest = room_type_rows stays allocations pr rts in
      any-append (is_of p q) (if joins stays pr rt then group_rows (suc nights) pr rt group else [])
        rest
      ∙ ap (λ b. b || any (is_of p q) rest)
          (any-if (is_of p q) (joins stays pr rt) (group_rows (suc nights) pr rt group)
            ∙ ground (arith, any-group p q nights pr rt group))

  -- No row comes of room types of other ids, or of another property.
  no_other_type :
      (p q : ℕ) (pr : Property) (rt : RoomType) (rts : List RoomType)
      → (rt.id == q) ≡ true
      → All (λ r. room_type_key rt r ≡ false) rts
      → any (is_of p q) (room_type_rows stays allocations pr rts) ≡ false
  unfolding room_type_key
  no_other_type p q pr rt [] hit h = unfold any room_type_rows in refl
  no_other_type p q pr rt (r ∷ rts) hit h =
      ground (arith, hit, h.0, any-head p q pr r rts, no_other_type p q pr rt rts hit h.1)

  no_other_property :
      (p q : ℕ) (pr : Property) (rts : List RoomType)
      → (pr.id == p) ≡ false
      → any (is_of p q) (room_type_rows stays allocations pr rts) ≡ false
  no_other_property p q pr [] miss = unfold any room_type_rows in refl
  no_other_property p q pr (r ∷ rts) miss =
      ground (arith, miss, any-head p q pr r rts, no_other_property p q pr rts miss)

  any-room_types :
      (pr : Property) (rt : RoomType) (rts : List RoomType)
      → Distinct room_type_key rts
      → Listed rt rts
      → any (is_of pr.id rt.id) (room_type_rows stays allocations pr rts) ≡ offered pr rt
  unfolding room_type_key
  any-room_types pr rt [] d l = elim l [ ]
  any-room_types pr rt (r ∷ rts) d (inl same) =
      let self : (r.id == r.id) ≡ true = ground arith in
      subst
        (λ (x : RoomType).
          any (is_of pr.id x.id) (room_type_rows stays allocations pr (r ∷ rts)) ≡ offered pr x)
        (sym same)
        (any-head pr.id r.id pr r rts
          ∙ ground (arith, self, no_other_type pr.id r.id pr r rts self d.0))
  any-room_types pr rt (r ∷ rts) d (inr later) =
      let key = All-Listed (λ x. room_type_key r x ≡ false) rts rt d.0 later in
      ground (arith, key, any-head pr.id rt.id pr r rts, any-room_types pr rt rts d.1 later)

module _ (db : SearchDb) (asked : Asked) (nights : ℕ) where
  any-next :
      (p q : ℕ) (pr : Property) (ps : List Property)
      → any (is_of p q) (property_rows db (stays asked nights db.allocations) (pr ∷ ps)) ≡ (
          (is_searched db.ilike_within (stays asked nights db.allocations) pr
            && any (is_of p q) (
                room_type_rows
                  (stays asked nights db.allocations)
                  db.allocations
                  pr
                  db.tables.room_types))
          || any (is_of p q) (property_rows db (stays asked nights db.allocations) ps))
  unfolding property_rows
  any-next p q pr ps =
      let s = stays asked nights db.allocations in
      let rows = room_type_rows s db.allocations pr db.tables.room_types in
      any-append (is_of p q) (if is_searched db.ilike_within s pr then rows else [])
        (property_rows db s ps)
      ∙ ap (λ b. b || any (is_of p q) (property_rows db s ps))
          (any-if (is_of p q) (is_searched db.ilike_within s pr) rows)

  no_other_row :
      (q : ℕ) (pr : Property) (ps : List Property)
      → All (λ x. property_key pr x ≡ false) ps
      → any (is_of pr.id q) (property_rows db (stays asked nights db.allocations) ps) ≡ false
  unfolding property_key
  no_other_row q pr [] h = unfold any property_rows in refl
  no_other_row q pr (x ∷ ps) h =
      let miss : (x.id == pr.id) ≡ false = ground (arith, h.0) in
      ground (
        arith,
        any-next pr.id q x ps,
        no_other_property asked nights db.allocations pr.id q x db.tables.room_types miss,
        no_other_row q pr ps h.1,
      )

  -- Of a property and a room type of the tables a row comes up exactly if the property is looked
  -- for and the room type is free.
  pub any-properties :
      (pr : Property) (rt : RoomType) (ps : List Property)
      → Distinct property_key ps
      → Listed pr ps
      → Distinct room_type_key db.tables.room_types
      → Listed rt db.tables.room_types
      → any (is_of pr.id rt.id) (property_rows db (stays asked nights db.allocations) ps) ≡ (
          is_searched db.ilike_within (stays asked nights db.allocations) pr
          && offered asked nights db.allocations pr rt)
  unfolding property_key
  any-properties pr rt [] d l e m = elim l [ ]
  any-properties pr rt (r ∷ ps) d (inl same) e m =
      let s = stays asked nights db.allocations in
      subst
        (λ (x : Property).
          any (is_of x.id rt.id) (property_rows db s (r ∷ ps))
          ≡ (is_searched db.ilike_within s x && offered asked nights db.allocations x rt))
        (sym same)
        (any-next r.id rt.id r ps
          ∙ ground (
            arith,
            any-room_types asked nights db.allocations r rt db.tables.room_types e m,
            no_other_row rt.id r ps d.0,
          ))
  any-properties pr rt (r ∷ ps) d (inr later) e m =
      let key = All-Listed (λ x. property_key r x ≡ false) ps pr d.0 later in
      let miss : (r.id == pr.id) ≡ false = ground (arith, key) in
      ground (
        arith,
        any-next pr.id rt.id r ps,
        no_other_property asked nights db.allocations pr.id rt.id r db.tables.room_types miss,
        any-properties pr rt ps d.1 later e m,
      )
