-- ===== src/Inventory.antt =====
-- internal/adapter/repository/postgres/inventory_repo.go: the table inventory.daily_allocations
-- (migrations/000003_init_inventory_schema.up.sql) and the transactions on it. A call of the
-- database may be refused, or its reply may be lost; a transaction keeps its work aside until its
-- commit, so that the faults of the calls before have no effect on the table.
pub mod Commit
pub mod Upsert
pub mod Tests
use text.Mathlib.Text.{◌==◌ as str_eq}
use doki_core_backend.Prelude.{
  ℕ, suc, ◌+◌, Bool, true, false, ◌&&◌, ◌||◌, String, List, [], ◌∷◌, ◌++◌, ltb, leb, ◌==◌,
  if◌then◌else◌, length,
}
use doki_core_backend.Prelude.Int.{ℤ, pos, ltb_ℤ, ◌+ℤ◌}
use doki_core_backend.Errors.{
  Err, sentinel, wrapped, pg_error, plain, Result, ok, err, inventory_unavailable,
  invalid_date_range,
}
use doki_core_backend.Clock.{date, nights_between}
use doki_core_backend.Redis.Keys.{Token, short_tok}
use doki_core_backend.Reservations.{Fault, no_fault, refused, lost, first_fault, later_faults}

-- `domain.DailyAllocation`, a row of the table. The date is a day; the two counts are not negative
-- (chk_inventory_bounds); the currency of the rate is always ETB.
pub record DailyAllocation : Type 0 where
  pub id : ℕ
  pub property_id : ℕ
  pub room_type_id : ℕ
  pub stay_date : ℕ
  pub total_units : ℤ
  pub allocated_count : ℕ
  pub blocked_count : ℕ
  pub rate_minor : ℤ

pub record Inventory : Type 0 where
  pub rows : List DailyAllocation
  pub faults : List Fault

unfoldable pub answer :
    {A : Type 0} → Fault → Result A → List Fault → List DailyAllocation → Result A × Inventory
answer no_fault reply fs rows = (reply, record { rows = rows; faults = fs })
answer (refused e) reply fs rows = (err e, record { rows = rows; faults = fs })
answer (lost e) reply fs rows = (err e, record { rows = rows; faults = fs })

-- A call whose work, if any, is in an open transaction.
unfoldable pub tx_call : {A : Type 0} → Result A → Inventory → Result A × Inventory
unfolding answer
tx_call reply db = answer (first_fault db.faults) reply (later_faults db.faults) db.rows

unfoldable pub commit_under :
    Fault → List Fault → List DailyAllocation → List DailyAllocation → Result (Unit {0}) × Inventory
commit_under no_fault fs old new = (ok tt, record { rows = new; faults = fs })
commit_under (refused e) fs old new = (err e, record { rows = old; faults = fs })
commit_under (lost e) fs old new = (err e, record { rows = new; faults = fs })

-- The commit of a transaction that leaves the table as `rows`.
unfoldable pub commit : List DailyAllocation → Inventory → Result (Unit {0}) × Inventory
unfolding commit_under
commit rows db = commit_under (first_fault db.faults) (later_faults db.faults) db.rows rows

-- WHERE property_id = p AND room_type_id = q AND stay_date >= from AND stay_date < to.
unfoldable pub in_window : ℕ → ℕ → ℕ → ℕ → DailyAllocation → Bool
in_window p q from to a =
    (a.property_id == p && a.room_type_id == q) && (leb from a.stay_date && ltb a.stay_date to)

unfoldable pub select_window : ℕ → ℕ → ℕ → ℕ → List DailyAllocation → List DailyAllocation
unfolding in_window
select_window p q from to [] = []
select_window p q from to (a ∷ rows) =
    if in_window p q from to a
    then a ∷ select_window p q from to rows
    else select_window p q from to rows

-- ORDER BY stay_date ASC.
unfoldable pub insert_by_date : DailyAllocation → List DailyAllocation → List DailyAllocation
insert_by_date a [] = a ∷ []
insert_by_date a (b ∷ rows) =
    if leb a.stay_date b.stay_date then a ∷ b ∷ rows else b ∷ insert_by_date a rows

unfoldable pub order_by_date : List DailyAllocation → List DailyAllocation
unfolding insert_by_date
order_by_date [] = []
order_by_date (a ∷ rows) = insert_by_date a (order_by_date rows)

-- `(a.AllocatedCount + a.BlockedCount + 1) > a.TotalUnits`.
unfoldable pub full : DailyAllocation → Bool
full a = ltb_ℤ a.total_units (pos (a.allocated_count + a.blocked_count + 1))

unfoldable pub any_full : List DailyAllocation → Bool
any_full [] = false
any_full (a ∷ rows) = full a || any_full rows

fetched : Result (List DailyAllocation) → Result (List DailyAllocation)
fetched (ok rows) = ok rows
fetched (err e) = err (wrapped "query daily allocations" e)

-- `GetDailyAllocations`.
unfoldable pub get_daily_allocations :
    ℕ → ℕ → ℕ → ℕ → Inventory → Result (List DailyAllocation) × Inventory
unfolding fetched tx_call
get_daily_allocations p q start_date end_date db =
    let (reply, db1) =
      tx_call (ok (order_by_date (select_window p q (date start_date) (date end_date) db.rows)))
        db in
    (fetched reply, db1)

-- `AcquireHold`, with the random identifier of its token; it writes nothing.
unfoldable pub hold_of : ℕ → ℕ → ℕ → ℕ → ℕ → ℤ → Result (List DailyAllocation) → Result (Token × ℤ)
hold_of p q uuid now nights ttl (err e) = err (wrapped "check capacity" e)
hold_of p q uuid now nights ttl (ok allocs) =
    if ltb (length allocs) nights || any_full allocs
    then err (sentinel inventory_unavailable)
    else ok (short_tok p q uuid, pos now +ℤ ttl)

unfoldable pub acquire_hold : ℕ → ℕ → ℕ → ℕ → ℕ → ℕ → ℤ → Inventory → Result (Token × ℤ) × Inventory
unfolding hold_of
acquire_hold now uuid p q check_in check_out ttl db =
    if ltb check_in check_out
    then (let (reply, db1) = get_daily_allocations p q check_in check_out db in
        (hold_of p q uuid now (nights_between check_in check_out) ttl reply, db1))
    else (err (sentinel invalid_date_range), db)
