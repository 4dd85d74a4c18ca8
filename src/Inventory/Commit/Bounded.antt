-- ===== src/Inventory/Commit/Bounded.antt =====
-- chk_inventory_bounds over CommitAllocation of
-- internal/adapter/repository/postgres/inventory_repo.go.
use doki_core_backend.Prelude.{
  ℕ, suc, ◌+◌, ◌≡◌, inl, inr, Bool, true, false, List, [], ◌∷◌, arith, Bool-cases,
}
use doki_core_backend.Prelude.Int.{ℤ, pos, negsuc, ltb_ℤ, leb_ℤ}
use doki_core_backend.Errors.{Result, ok, err}
use doki_core_backend.Clock.{date, nights_between}
use doki_core_backend.Inventory.{
  DailyAllocation, Inventory, select_window, full, any_full, in_window,
}
use doki_core_backend.Inventory.Commit.{add_allocation, commit_allocation}
use doki_core_backend.Inventory.Commit.Bounds.{Commits, commit_allocation-Commits}

-- `(allocated_count + blocked_count) <= total_units`.
unfoldable pub bounded : DailyAllocation → Bool
bounded a = leb_ℤ (pos (a.allocated_count + a.blocked_count)) a.total_units

abbrev pub AllBounded : List DailyAllocation → Type 0
AllBounded [] = Unit
AllBounded (a ∷ rows) = (bounded a ≡ true) × AllBounded rows

bounded_suc :
    (total : ℤ) (m n : ℕ)
    → ltb_ℤ total (pos (m + n + 1)) ≡ false
    → leb_ℤ (pos (suc m + n)) total ≡ true
bounded_suc (pos t) m n h = ground (arith, h)
bounded_suc (negsuc t) m n h = ground (arith, h)

add_allocation-AllBounded :
    (p q from to : ℕ) (rows : List DailyAllocation)
    → any_full (select_window p q from to rows) ≡ false
    → AllBounded rows
    → AllBounded (add_allocation p q from to rows)
unfolding add_allocation select_window any_full full bounded
add_allocation-AllBounded p q from to [] h k = tt
add_allocation-AllBounded p q from to (a ∷ rows) h k = elim (Bool-cases (in_window p q from to a)) [
  | inl e ↦
      let h' = rw e at h in
      let parts : (full a ≡ false) × (any_full (select_window p q from to rows) ≡ false) =
        (ground (arith, h'), ground (arith, h')) in
      rw e (
        bounded_suc a.total_units a.allocated_count a.blocked_count parts.0,
        add_allocation-AllBounded p q from to rows parts.1 k.1,
      )
  | inr e ↦ rw e (k.0, add_allocation-AllBounded p q from to rows (rw e at h) k.1)
]

Commits-AllBounded :
    (p q from to nights : ℕ) (rows : List DailyAllocation) (out : Result (Unit {0}) × Inventory)
    → Commits p q from to nights rows out
    → AllBounded rows
    → AllBounded out.1.rows
Commits-AllBounded p q from to nights rows (ok _, db) h k =
    rw h.2 (add_allocation-AllBounded p q from to rows h.0 k)
Commits-AllBounded p q from to nights rows (err e, db) (inl same) k = rw same k
Commits-AllBounded p q from to nights rows (err e, db) (inr h) k =
    rw h.0.2 (add_allocation-AllBounded p q from to rows h.0.0 k)

-- No call of `CommitAllocation` allocates more than a row's units, whatever the database does.
pub commit_allocation-AllBounded :
    (p q check_in check_out : ℕ) (db : Inventory)
    → AllBounded db.rows
    → AllBounded (commit_allocation p q check_in check_out db).1.rows
commit_allocation-AllBounded p q check_in check_out db h =
    Commits-AllBounded p q (date check_in) (date check_out) (nights_between check_in check_out)
      db.rows _ (commit_allocation-Commits p q check_in check_out db) h
