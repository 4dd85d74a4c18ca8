-- ===== src/Inventory/Upsert/Batch.antt =====
-- The batch of BatchUpsertDailyAllocations of
-- internal/adapter/repository/postgres/inventory_repo.go as a whole.
use doki_core_backend.Prelude.{ℕ, suc, ◌≡◌, ◌⊎◌, inl, inr, refl, true, List, [], ◌∷◌}
use doki_core_backend.Errors.{wrapped, Result, ok, err}
use doki_core_backend.Reservations.{Fault, no_fault, refused, lost, first_fault, later_faults}
use doki_core_backend.Inventory.{DailyAllocation, Inventory, answer, tx_call, commit_under, commit}
use doki_core_backend.Inventory.Commit.Bounded.{AllBounded}
use doki_core_backend.Inventory.Upsert.{
  has_slot, upsert_item, identified, exec_items, committed, after_close, after_items, after_begin,
  batch_upsert_daily_allocations,
}
use doki_core_backend.Inventory.Upsert.Keeps.{
  Keeps, Keeps-same, Keeps-trans, Keeps-has_slot, Upserted, upsert_item-Upserted,
}

-- Every item's day has a row.
abbrev pub AllHave : List DailyAllocation → List DailyAllocation → Type 0
AllHave [] rows = Unit
AllHave (a ∷ items) rows =
    (has_slot a.property_id a.room_type_id a.stay_date rows ≡ true) × AllHave items rows

-- A table and the one that a batch leaves.
abbrev pub Merges : List DailyAllocation → List DailyAllocation → List DailyAllocation → Type 0
Merges items rows rows' =
    Keeps rows rows' × (AllBounded rows → AllBounded rows') × AllHave items rows'

-- The outcome of the statements: the rows in the transaction, while the table is as it was.
abbrev Executes :
    List DailyAllocation
    → List DailyAllocation
    → List DailyAllocation
    → Result (List DailyAllocation) × Inventory
    → Type 0
Executes items table rows (ok rows', db) = (db.rows ≡ table) × Merges items rows rows'
Executes items table rows (err e, db) = db.rows ≡ table

-- The outcome of a call.
abbrev pub Upserts :
    List DailyAllocation → List DailyAllocation → Result (Unit {0}) × Inventory → Type 0
Upserts items table (ok _, db) = Merges items table db.rows
Upserts items table (err e, db) = (db.rows ≡ table) ⊎ Merges items table db.rows

module _ (uuids : ℕ → ℕ) where
  execute_under :
      (f : Fault) (fs : List Fault) (i : ℕ) (a : DailyAllocation)
      (items table rows : List DailyAllocation) (reply : Result (List DailyAllocation))
      → Upserted (identified (uuids i) a) rows reply
      → ((rows1 : List DailyAllocation) (db1 : Inventory)
          → db1.rows ≡ table
          → Executes items table rows1 (exec_items uuids (suc i) items rows1 db1))
      → Executes (a ∷ items) table rows (
          let (out, db1) = answer f reply fs table in
          elim out [
            | err e ↦ (err (wrapped "exec batch item" e), db1)
            | ok rows1 ↦ exec_items uuids (suc i) items rows1 db1
          ])
  unfolding answer
  execute_under (refused e) fs i a items table rows reply h go = refl
  execute_under (lost e) fs i a items table rows reply h go = refl
  execute_under no_fault fs i a items table rows (err e) h go = refl
  execute_under no_fault fs i a items table rows (ok rows1) h go =
      join (exec_items uuids (suc i) items rows1 (record { rows = table; faults = fs }))
        (go rows1 (record { rows = table; faults = fs }) refl)
    where
      join :
          (out : Result (List DailyAllocation) × Inventory)
          → Executes items table rows1 out
          → Executes (a ∷ items) table rows out
      join (err e, db) k = k
      join (ok rows2, db) k = (
        k.0,
        (
          Keeps-trans rows rows1 rows2 h.0 k.1.0,
          λ b. k.1.1 (h.1 b),
          (Keeps-has_slot a.property_id a.room_type_id a.stay_date rows1 rows2 k.1.0 h.2, k.1.2),
        ),
      )

  exec_items-Executes :
      (i : ℕ) (items table rows : List DailyAllocation) (db : Inventory)
      → db.rows ≡ table
      → Executes items table rows (exec_items uuids i items rows db)
  unfolding exec_items tx_call
  exec_items-Executes i [] table rows db h = (h, (Keeps-same rows, (λ b. b), tt))
  exec_items-Executes i (a ∷ items) table rows db h = rw h (
      execute_under (first_fault db.faults) (later_faults db.faults) i a items table rows
        (upsert_item (identified (uuids i) a) rows)
        (upsert_item-Upserted (identified (uuids i) a) rows)
        (λ rows1 db1 h1. exec_items-Executes (suc i) items table rows1 db1 h1))

commit-Upserts :
    (f : Fault) (fs : List Fault) (items table rows : List DailyAllocation)
    → Merges items table rows
    → Upserts items table (committed (commit_under f fs table rows))
unfolding committed commit_under
commit-Upserts no_fault fs items table rows h = h
commit-Upserts (refused e) fs items table rows h = inl refl
commit-Upserts (lost e) fs items table rows h = inr h

close-Upserts :
    (f : Fault) (fs : List Fault) (items table rows : List DailyAllocation)
    → Merges items table rows
    → (let out = answer f (ok tt) fs table in Upserts items table (after_close rows out.0 out.1))
unfolding answer after_close commit
close-Upserts no_fault fs items table rows h = commit-Upserts _ _ items table rows h
close-Upserts (refused e) fs items table rows h = inl refl
close-Upserts (lost e) fs items table rows h = inl refl

items-Upserts :
    (items table : List DailyAllocation) (out : Result (List DailyAllocation) × Inventory)
    → Executes items table table out
    → Upserts items table (after_items out.0 out.1)
unfolding after_items tx_call
items-Upserts items table (err e, db) h = inl h
items-Upserts items table (ok rows, db) h = rw h.0 (close-Upserts _ _ items table rows h.1)

begin-Upserts :
    (uuids : ℕ → ℕ) (f : Fault) (fs : List Fault) (items table : List DailyAllocation)
    → (let out = answer f (ok tt) fs table in
        Upserts items table (after_begin uuids items out.0 out.1))
unfolding answer after_begin
begin-Upserts uuids (refused e) fs items table = inl refl
begin-Upserts uuids (lost e) fs items table = inl refl
begin-Upserts uuids no_fault fs items table =
    items-Upserts items table _
      (exec_items-Executes uuids 0 items table table (record { rows = table; faults = fs }) refl)

-- Whatever the database does: a batch keeps every row with its slot and its counts, and also with
-- its total and its rate if units of it are allocated; it keeps the bounds of the table; and if it
-- succeeds, every item's day has a row. A batch that fails leaves the table as it was, or with all
-- of its effect.
pub batch_upsert-Upserts :
    (uuids : ℕ → ℕ) (items : List DailyAllocation) (db : Inventory)
    → Upserts items db.rows (batch_upsert_daily_allocations uuids items db)
unfolding batch_upsert_daily_allocations tx_call
batch_upsert-Upserts uuids [] db = (Keeps-same db.rows, (λ b. b), tt)
batch_upsert-Upserts uuids (a ∷ items) db =
    begin-Upserts uuids (first_fault db.faults) (later_faults db.faults) (a ∷ items) db.rows
