-- ===== src/Inventory/Commit/Units.antt =====
-- The units that CommitAllocation of internal/adapter/repository/postgres/inventory_repo.go takes.
use doki_core_backend.Prelude.{
  ℕ, suc, ◌+◌, ◌≡◌, ◌≤◌, ◌<◌, ◌⊎◌, inl, inr, refl, true, false, List, [], ◌∷◌, arith, length,
  Bool-cases,
}
use mathlib.Core.Path.{subst}
use doki_core_backend.Prelude.Int.{pos, ◌≤ℤ◌}
use doki_core_backend.Errors.{Err, wrapped, Result, ok, err}
use doki_core_backend.Clock.{date, nights_between}
use doki_core_backend.Inventory.{
  DailyAllocation, Inventory, in_window, select_window, full, any_full,
}
use doki_core_backend.Inventory.Commit.{add_allocation, commit_allocation}
use doki_core_backend.Inventory.Commit.Bounds.{Commits, commit_allocation-Commits}

module _ (p q from to : ℕ) where
  -- The row is of the room type, and of a night from `from` on and before `to`.
  abbrev pub InWindow : DailyAllocation → Type 0
  InWindow a =
      (a.property_id ≡ p) × (a.room_type_id ≡ q) × (from ≤ a.stay_date) × (a.stay_date < to)

  -- One unit more fits the total.
  abbrev pub HasRoom : DailyAllocation → Type 0
  HasRoom a = pos (a.allocated_count + a.blocked_count + 1) ≤ℤ a.total_units

  -- So many rows are in the window, each of them had room and has one unit more, and every other
  -- row is as it was.
  abbrev pub TakesUnits : ℕ → List DailyAllocation → List DailyAllocation → Type 0
  TakesUnits n [] [] = n ≡ 0
  TakesUnits n [] (b ∷ ys) = ⊥
  TakesUnits n (a ∷ xs) [] = ⊥
  TakesUnits n (a ∷ xs) (b ∷ ys) =
      InWindow a
        × HasRoom a
        × (b ≡ record a { allocated_count = suc a.allocated_count })
        × ((m : ℕ) × (n ≡ suc m) × TakesUnits m xs ys)
      ⊎ ¬ (InWindow a) × (b ≡ a) × TakesUnits n xs ys

  in_window-InWindow : (a : DailyAllocation) → in_window p q from to a ≡ true → InWindow a
  unfolding in_window
  in_window-InWindow a h =
      (ground (arith, h), ground (arith, h), ground (arith, h), ground (arith, h))

  InWindow-in_window : (a : DailyAllocation) → InWindow a → in_window p q from to a ≡ true
  unfolding in_window
  InWindow-in_window a (i, j, k, l) = ground (arith, i, j, k, l)

  full-HasRoom : (a : DailyAllocation) → full a ≡ false → HasRoom a
  unfolding full
  full-HasRoom a h = ground (arith, h)

  add_allocation-TakesUnits :
      (rows : List DailyAllocation)
      → any_full (select_window p q from to rows) ≡ false
      → TakesUnits (length (select_window p q from to rows)) rows (add_allocation p q from to rows)
  unfolding add_allocation any_full select_window
  add_allocation-TakesUnits [] h = refl
  add_allocation-TakesUnits (a ∷ rows) h = elim (Bool-cases (in_window p q from to a)) [
    | inl hit ↦
        let free = rw hit at h in
        rw hit (
          inl (
            in_window-InWindow a hit,
            full-HasRoom a (ground (arith, free)),
            refl,
            (
              length (select_window p q from to rows),
              refl,
              add_allocation-TakesUnits rows (ground (arith, free)),
            ),
          ))
    | inr miss ↦ rw miss (
        inr (
          λ w. absurd (ground (arith, InWindow-in_window a w, miss)),
          refl,
          add_allocation-TakesUnits rows (rw miss at h),
        ))
  ]

  -- What a commit comes to: it has taken the units, or it has failed and left the table as it was,
  -- unless the reply of the commit itself was lost.
  abbrev pub Takes : ℕ → List DailyAllocation → Result (Unit {0}) × Inventory → Type 0
  Takes nights rows (ok _, db) = TakesUnits nights rows db.rows
  Takes nights rows (err e, db) =
      (db.rows ≡ rows)
      ⊎ TakesUnits nights rows db.rows
        × ((e' : Err) × (e ≡ wrapped "commit allocation transaction" e'))

  allocated :
      (nights : ℕ) (rows rows' : List DailyAllocation)
      → any_full (select_window p q from to rows) ≡ false
      → length (select_window p q from to rows) ≡ nights
      → rows' ≡ add_allocation p q from to rows
      → TakesUnits nights rows rows'
  allocated nights rows rows' free all e = rw e (
      subst (λ n. TakesUnits n rows (add_allocation p q from to rows)) all
        (add_allocation-TakesUnits rows free))

  Commits-Takes :
      (nights : ℕ) (rows : List DailyAllocation) (out : Result (Unit {0}) × Inventory)
      → Commits p q from to nights rows out
      → Takes nights rows out
  Commits-Takes nights rows (ok _, db) (free, all, e) = allocated nights rows db.rows free all e
  Commits-Takes nights rows (err x, db) (inl same) = inl same
  Commits-Takes nights rows (err x, db) (inr ((free, all, e), c)) =
      inr (allocated nights rows db.rows free all e, c)

-- Whatever the database does: `CommitAllocation` succeeds only where as many rows of the room type
-- as the stay has nights lie in its window, each with room for one unit more; it then takes one unit
-- of each of them and changes no other row. A failed call leaves the table as it was, unless the
-- commit has happened and its reply was lost.
pub commit_allocation-Takes :
    (p q check_in check_out : ℕ) (db : Inventory)
    → Takes p q
        (date check_in)
        (date check_out)
        (nights_between check_in check_out)
        db.rows
        (commit_allocation p q check_in check_out db)
commit_allocation-Takes p q check_in check_out db =
    Commits-Takes p q (date check_in) (date check_out) (nights_between check_in check_out) db.rows _
      (commit_allocation-Commits p q check_in check_out db)
