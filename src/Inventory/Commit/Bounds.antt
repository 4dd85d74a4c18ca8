-- ===== src/Inventory/Commit/Bounds.antt =====
-- What CommitAllocation of internal/adapter/repository/postgres/inventory_repo.go leaves of the
-- table of daily allocations.
use doki_core_backend.Prelude.{
  ℕ, ◌≡◌, ◌⊎◌, inl, inr, refl, false, List, arith, ltb, ◌==◌, length, Bool-cases,
}
use mathlib.Core.Path.{subst}
use doki_core_backend.Errors.{Err, wrapped, Result, ok, err}
use doki_core_backend.Clock.{date, nights_between}
use doki_core_backend.Reservations.{Fault, no_fault, refused, lost, first_fault}
use doki_core_backend.Inventory.{
  DailyAllocation, Inventory, answer, tx_call, commit_under, commit, select_window, order_by_date,
  any_full,
}
use doki_core_backend.Inventory.Commit.{
  add_allocation, update_reply, committed, after_update, after_rows, after_query, after_begin,
  commit_allocation,
}

module _ (p q from to nights : ℕ) where
  -- Each night of the window has its row, no row of it is full, and each has one unit more.
  abbrev pub Allocates : List DailyAllocation → List DailyAllocation → Type 0
  Allocates rows rows' =
      (any_full (select_window p q from to rows) ≡ false)
      × (length (select_window p q from to rows) ≡ nights)
      × (rows' ≡ add_allocation p q from to rows)

  abbrev pub Commits : List DailyAllocation → Result (Unit {0}) × Inventory → Type 0
  Commits rows (ok _, db) = Allocates rows db.rows
  Commits rows (err e, db) =
      (db.rows ≡ rows)
      ⊎ Allocates rows db.rows × ((e' : Err) × (e ≡ wrapped "commit allocation transaction" e'))

  -- A call in the transaction changes no row, and replies as it was told or with an error.
  abbrev Stays : {A : Type 0} → Result A → List DailyAllocation → Result A × Inventory → Type 0
  Stays reply rows (ok a, db) = (db.rows ≡ rows) × (reply ≡ ok a)
  Stays reply rows (err e, db) = db.rows ≡ rows

  answer-Stays :
      {A : Type 0} (f : Fault) (reply : Result A) (fs : List Fault) (rows : List DailyAllocation)
      → Stays reply rows (answer f reply fs rows)
  unfolding answer
  answer-Stays no_fault (ok a) fs rows = (refl, refl)
  answer-Stays no_fault (err e) fs rows = refl
  answer-Stays (refused e) reply fs rows = refl
  answer-Stays (lost e) reply fs rows = refl

  tx_call-Stays :
      {A : Type 0} (reply : Result A) (db : Inventory) (rows : List DailyAllocation)
      → db.rows ≡ rows
      → Stays reply rows (tx_call reply db)
  unfolding tx_call
  tx_call-Stays reply db rows h =
      subst (λ rs. Stays reply rs (tx_call reply db)) h
        (answer-Stays (first_fault db.faults) reply _ db.rows)

  commit-Commits :
      (f : Fault) (fs : List Fault) (rows : List DailyAllocation)
      → any_full (select_window p q from to rows) ≡ false
      → length (select_window p q from to rows) ≡ nights
      → Commits rows
          (committed p q from to nights (commit_under f fs rows (add_allocation p q from to rows)))
  unfolding committed commit_under
  commit-Commits no_fault fs rows free all = (free, all, refl)
  commit-Commits (refused e) fs rows free all = inl refl
  commit-Commits (lost e) fs rows free all = inr ((free, all, refl), (e, refl))

  update-Commits :
      (rows : List DailyAllocation) (out : Result ℕ × Inventory)
      → Stays (update_reply p q from to rows) rows out
      → Commits rows (after_update p q from to nights out.0 out.1)
  unfolding after_update update_reply commit
  update-Commits rows (err e, db) h = inl h
  update-Commits rows (ok n, db) h = elim (Bool-cases (n == nights)) [
    | inr bad ↦ rw bad (inl h.0)
    | inl good ↦
        rw (good, h.0)
          (commit-Commits (first_fault db.faults) _ rows (ground (arith, h.1))
            (ground (arith, h.1, good)))
  ]

  rows-Commits :
      (rows : List DailyAllocation) (records : ℕ) (out : Result (Unit {0}) × Inventory)
      → Stays (ok tt) rows out
      → Commits rows (after_rows p q from to nights records out.0 out.1)
  unfolding after_rows
  rows-Commits rows records (err e, db) h = inl h
  rows-Commits rows records (ok _, db) h = elim (Bool-cases (ltb records nights)) [
    | inl short ↦ rw short (inl h.0)
    | inr long ↦ rw long (
        update-Commits rows _ (
          subst
            (λ rs.
              Stays (update_reply p q from to rs) rows
                (tx_call (update_reply p q from to db.rows) db))
            h.0 (tx_call-Stays (update_reply p q from to db.rows) db rows h.0)))
  ]

  query-Commits :
      (rows : List DailyAllocation) (reply : Result (List DailyAllocation))
      (out : Result (List DailyAllocation) × Inventory)
      → Stays reply rows out
      → Commits rows (after_query p q from to nights out.0 out.1)
  unfolding after_query
  query-Commits rows reply (err e, db) h = inl h
  query-Commits rows reply (ok records, db) h = elim (Bool-cases (any_full records)) [
    | inl sold ↦ rw sold (inl h.0)
    | inr free ↦ rw free (rows-Commits rows _ _ (tx_call-Stays (ok tt) db rows h.0))
  ]

  begin-Commits :
      (rows : List DailyAllocation) (out : Result (Unit {0}) × Inventory)
      → Stays (ok tt) rows out
      → Commits rows (after_begin p q from to nights out.0 out.1)
  unfolding after_begin
  begin-Commits rows (err e, db) h = inl h
  begin-Commits rows (ok _, db) h =
      query-Commits rows (ok (order_by_date (select_window p q from to db.rows))) _
        (tx_call-Stays _ db rows h.0)

-- Whatever the database does: `CommitAllocation` succeeds only where every night of the stay has a
-- row, of which none is full, and then takes one unit of each and changes no other row. A failed
-- call leaves the table as it was, unless the commit has happened and its reply was lost.
pub commit_allocation-Commits :
    (p q check_in check_out : ℕ) (db : Inventory)
    → Commits p q
        (date check_in)
        (date check_out)
        (nights_between check_in check_out)
        db.rows
        (commit_allocation p q check_in check_out db)
unfolding commit_allocation
commit_allocation-Commits p q check_in check_out db = elim (Bool-cases (ltb check_in check_out)) [
  | inr late ↦ rw late (inl refl)
  | inl soon ↦ rw soon (
      begin-Commits p q (date check_in) (date check_out) (nights_between check_in check_out) db.rows
        _
        (tx_call-Stays p q (date check_in) (date check_out) (nights_between check_in check_out)
          (ok tt) db db.rows refl))
]
