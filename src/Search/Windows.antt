-- ===== src/Search/Windows.antt =====
-- The nights of a stay as the query of internal/adapter/http/v1/search_handler.go counts them, and
-- as `AcquireHold` of internal/adapter/repository/postgres/inventory_repo.go does.
use doki_core_backend.Prelude.{
  ℕ, zero, suc, ◌+◌, ◌≤◌, ◌≡◌, refl, inl, inr, true, false, not, ◌||◌, List, [], ◌∷◌, ltb, arith,
  length, Bool-cases,
}
use doki_core_backend.Prelude.Int.{pos, ltb_ℤ, ◌-ℤ◌}
use doki_core_backend.Inventory.{
  DailyAllocation, in_window, select_window, insert_by_date, order_by_date, full, any_full,
}
use doki_core_backend.Inventory.Upsert.{same_slot}
use doki_core_backend.Properties.Keys.{All, Distinct}
use doki_core_backend.Search.Query.{free_units, min_free, has_nights}

-- The order of the rows is of no account to their number and to whether one is full.
length-insert :
    (a : DailyAllocation) (rows : List DailyAllocation)
    → length (insert_by_date a rows) ≡ suc (length rows)
unfolding insert_by_date
length-insert a [] = refl
length-insert a (b ∷ rows) = ground (arith, length-insert a rows)

length-order : (rows : List DailyAllocation) → length (order_by_date rows) ≡ length rows
unfolding order_by_date
length-order [] = refl
length-order (a ∷ rows) = omega (arith, length-insert a (order_by_date rows), length-order rows)

any_full-insert :
    (a : DailyAllocation) (rows : List DailyAllocation)
    → any_full (insert_by_date a rows) ≡ (full a || any_full rows)
unfolding insert_by_date any_full
any_full-insert a [] = refl
any_full-insert a (b ∷ rows) = ground (arith, any_full-insert a rows)

any_full-order : (rows : List DailyAllocation) → any_full (order_by_date rows) ≡ any_full rows
unfolding order_by_date any_full
any_full-order [] = refl
any_full-order (a ∷ rows) =
    ground (arith, any_full-insert a (order_by_date rows), any_full-order rows)

free-full : (a : DailyAllocation) → ltb_ℤ (pos 0) (free_units a) ≡ not (full a)
unfolding free_units full ◌-ℤ◌
free-full a = ground arith

-- The least number of free units is above zero if no row is full.
min_free-any_full :
    (a : DailyAllocation) (rows : List DailyAllocation)
    → ltb_ℤ (pos 0) (min_free (a ∷ rows)) ≡ not (any_full (a ∷ rows))
unfolding min_free any_full
min_free-any_full a [] = ground (arith, free-full a)
min_free-any_full a (b ∷ rows) = ground (arith, free-full a, min_free-any_full b rows)

module _ (p q : ℕ) where
  window_split :
      (from to : ℕ) (rows : List DailyAllocation)
      → from ≤ to
      → length (select_window p q from (suc to) rows)
        ≡ length (select_window p q from to rows) + length (select_window p q to (suc to) rows)
  unfolding select_window in_window
  window_split from to [] h = omega arith
  window_split from to (a ∷ rows) h = ground (arith, h, window_split from to rows h)

  none_again :
      (a : DailyAllocation) (d : ℕ) (rows : List DailyAllocation)
      → in_window p q d (suc d) a ≡ true
      → All (λ b. same_slot a b ≡ false) rows
      → select_window p q d (suc d) rows ≡ []
  unfolding select_window in_window
  none_again a d [] h k = refl
  none_again a d (b ∷ rows) h k =
      let out : in_window p q d (suc d) b ≡ false = ground (arith, h, k.0) in
      simp out (none_again a d rows h k.1)

  one_a_day :
      (d : ℕ) (rows : List DailyAllocation)
      → Distinct same_slot rows
      → length (select_window p q d (suc d) rows) ≤ 1
  unfolding select_window
  one_a_day d [] h = omega arith
  one_a_day d (a ∷ rows) h = elim (Bool-cases (in_window p q d (suc d) a)) [
    | inl hit ↦ rw (hit, none_again a d rows hit h.0) (omega arith)
    | inr miss ↦ rw miss (one_a_day d rows h.1)
  ]

  window_empty : (d : ℕ) (rows : List DailyAllocation) → select_window p q d d rows ≡ []
  unfolding select_window in_window
  window_empty d [] = refl
  window_empty d (a ∷ rows) = ground (arith, window_empty d rows)

  -- A window has no more rows than days.
  pub length-window :
      (from n : ℕ) (rows : List DailyAllocation)
      → Distinct same_slot rows
      → length (select_window p q from (from + n) rows) ≤ n
  length-window from zero rows h =
      let e : from + 0 ≡ from = omega arith in rw (e, window_empty from rows) (omega arith)
  length-window from (suc n) rows h =
      let e : from + suc n ≡ suc (from + n) = omega arith in
      rw e (
        omega (
          arith,
          window_split from (from + n) rows (omega arith),
          one_a_day (from + n) rows h,
          length-window from n rows h,
        ))

-- A group of at most so many rows has a row for each night with a unit free, exactly if
-- `AcquireHold` finds neither too few rows nor a full one.
pub has_nights-acquired :
    (nights : ℕ) (group : List DailyAllocation)
    → length group ≤ suc nights
    → has_nights (suc nights) group
      ≡ not (ltb (length (order_by_date group)) (suc nights) || any_full (order_by_date group))
unfolding has_nights
has_nights-acquired nights [] h = rw (length-order [], any_full-order []) (ground (arith, h))
has_nights-acquired nights (a ∷ group) h =
    rw (length-order (a ∷ group), any_full-order (a ∷ group), min_free-any_full a group)
      (ground (arith, h))
