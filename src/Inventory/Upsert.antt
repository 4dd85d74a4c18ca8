-- ===== src/Inventory/Upsert.antt =====
-- `BatchUpsertDailyAllocations` of internal/adapter/repository/postgres/inventory_repo.go.
pub mod Keeps
pub mod Batch
use doki_core_backend.Prelude.{
  ℕ, suc, Bool, true, false, ◌&&◌, ◌||◌, not, List, [], ◌∷◌, ◌==◌, if◌then◌else◌,
}
use doki_core_backend.Errors.{Err, wrapped, pg_error, Result, ok, err}
use doki_core_backend.Inventory.{DailyAllocation, Inventory, tx_call, commit}
use doki_core_backend.Inventory.Commit.Bounded.{bounded}

-- UNIQUE (property_id, room_type_id, stay_date).
abbrev pub same_slot : DailyAllocation → DailyAllocation → Bool
same_slot a b =
    (a.property_id == b.property_id && a.room_type_id == b.room_type_id)
    && a.stay_date == b.stay_date

abbrev pub has_slot : ℕ → ℕ → ℕ → List DailyAllocation → Bool
has_slot p q d [] = false
has_slot p q d (a ∷ rows) =
    if (p == a.property_id && q == a.room_type_id) && d == a.stay_date
    then true
    else has_slot p q d rows

id_taken : ℕ → List DailyAllocation → Bool
id_taken id [] = false
id_taken id (a ∷ rows) = a.id == id || id_taken id rows

-- DO UPDATE SET total_units, rate_minor WHERE allocated_count = 0.
unfoldable pub refreshed : DailyAllocation → DailyAllocation → DailyAllocation
refreshed item a =
    if a.allocated_count == 0
    then record a { total_units = item.total_units; rate_minor = item.rate_minor }
    else a

prepend : DailyAllocation → Result (List DailyAllocation) → Result (List DailyAllocation)
prepend a (ok rows) = ok (a ∷ rows)
prepend a (err e) = err e

-- ON CONFLICT over the rows, under chk_inventory_bounds.
unfoldable pub upsert_row : DailyAllocation → List DailyAllocation → Result (List DailyAllocation)
unfolding refreshed prepend
upsert_row item [] = ok (item ∷ [])
upsert_row item (a ∷ rows) =
    let rest = upsert_row item rows in
    if same_slot item a
    then (if bounded (refreshed item a)
        then ok (refreshed item a ∷ rows)
        else err (pg_error "23514"))
    else prepend a rest

-- The statement for one item. The row that is proposed is checked before a conflict is looked for.
unfoldable pub upsert_item : DailyAllocation → List DailyAllocation → Result (List DailyAllocation)
unfolding upsert_row id_taken
upsert_item item rows =
    if bounded item
    then (if id_taken item.id rows
          && not (has_slot item.property_id item.room_type_id item.stay_date rows)
        then err (pg_error "23505")
        else upsert_row item rows)
    else err (pg_error "23514")

-- An item without an id is given a random one.
abbrev pub identified : ℕ → DailyAllocation → DailyAllocation
identified uuid a = record a { id = if a.id == 0 then uuid else a.id }

module _ (uuids : ℕ → ℕ) where
  -- The replies of the batch in turn; the work is in the transaction.
  exec_items :
      ℕ
      → List DailyAllocation
      → List DailyAllocation
      → Inventory
      → Result (List DailyAllocation) × Inventory
  exec_items i [] rows db = (ok rows, db)
  exec_items i (a ∷ items) rows db =
      let (reply, db1) = tx_call (upsert_item (identified (uuids i) a) rows) db in
      elim reply [
        | err e ↦ (err (wrapped "exec batch item" e), db1)
        | ok rows1 ↦ exec_items (suc i) items rows1 db1
      ]

committed : Result (Unit {0}) × Inventory → Result (Unit {0}) × Inventory
committed (ok _, db) = (ok tt, db)
committed (err e, db) = (err (wrapped "commit batch upsert tx" e), db)

after_close : List DailyAllocation → Result (Unit {0}) → Inventory → Result (Unit {0}) × Inventory
unfolding committed
after_close rows (err e) db = (err (wrapped "close batch results" e), db)
after_close rows (ok _) db = committed (commit rows db)

after_items : Result (List DailyAllocation) → Inventory → Result (Unit {0}) × Inventory
unfolding after_close
after_items (err e) db = (err e, db)
after_items (ok rows) db = let (reply, db1) = tx_call (ok tt) db in after_close rows reply db1

after_begin :
    (ℕ → ℕ) → List DailyAllocation → Result (Unit {0}) → Inventory → Result (Unit {0}) × Inventory
unfolding exec_items after_items
after_begin uuids items (err e) db = (err (wrapped "begin batch upsert tx" e), db)
after_begin uuids items (ok _) db =
    let (reply, db1) = exec_items uuids 0 items db.rows db in after_items reply db1

-- `BatchUpsertDailyAllocations`.
unfoldable pub batch_upsert_daily_allocations :
    (ℕ → ℕ) → List DailyAllocation → Inventory → Result (Unit {0}) × Inventory
unfolding after_begin
batch_upsert_daily_allocations uuids [] db = (ok tt, db)
batch_upsert_daily_allocations uuids (a ∷ items) db =
    let (reply, db1) = tx_call (ok tt) db in after_begin uuids (a ∷ items) reply db1
