-- ===== src/Inventory/Commit.antt =====
-- `CommitAllocation` of internal/adapter/repository/postgres/inventory_repo.go.
pub mod Bounds
pub mod Bounded
pub mod Units
use text.Mathlib.Text.{◌==◌ as str_eq}
use doki_core_backend.Prelude.{
  ℕ, suc, ◌+◌, ◌≡◌, ◌⊎◌, inl, inr, refl, Bool, true, false, ◌&&◌, ◌||◌, not, String, List, [], ◌∷◌,
  arith, ltb, leb, ◌==◌, if◌then◌else◌, length, Bool-cases,
}
use doki_core_backend.Prelude.Int.{ℤ, pos, ltb_ℤ, ◌≤ℤ◌}
use doki_core_backend.Errors.{
  Err, sentinel, wrapped, pg_error, no_rows, redis_nil, cancelled, Result, ok, err,
  inventory_unavailable, invalid_date_range,
}
use doki_core_backend.Clock.{date, nights_between}
use doki_core_backend.Reservations.{Fault, no_fault, refused, lost, first_fault}
use doki_core_backend.Inventory.{
  DailyAllocation, Inventory, tx_call, commit, in_window, select_window, order_by_date, full,
  any_full,
}

-- `errors.As(err, &pgErr) && pgErr.Code == "23514"`.
unfoldable pub is_check_violation : Err → Bool
is_check_violation (pg_error code) = str_eq code "23514"
is_check_violation (wrapped text e) = is_check_violation e
is_check_violation (sentinel s) = false
is_check_violation (Err.plain text) = false
is_check_violation no_rows = false
is_check_violation redis_nil = false
is_check_violation cancelled = false

-- UPDATE … SET allocated_count = allocated_count + 1 on the rows of a window.
unfoldable pub add_allocation : ℕ → ℕ → ℕ → ℕ → List DailyAllocation → List DailyAllocation
add_allocation p q from to [] = []
add_allocation p q from to (a ∷ rows) =
    let rest = add_allocation p q from to rows in
    if in_window p q from to a
    then record a { allocated_count = suc a.allocated_count } ∷ rest
    else a ∷ rest

-- The same as a statement, under chk_inventory_bounds; the reply is the number of rows affected.
update_reply : ℕ → ℕ → ℕ → ℕ → List DailyAllocation → Result ℕ
update_reply p q from to rows =
    if any_full (select_window p q from to rows)
    then err (pg_error "23514")
    else ok (length (select_window p q from to rows))

update_failed : Err → Err
update_failed e =
    if is_check_violation e
    then sentinel inventory_unavailable
    else wrapped "update daily allocations" e

module _ (p q from to nights : ℕ) where
  committed : Result (Unit {0}) × Inventory → Result (Unit {0}) × Inventory
  committed (ok _, db) = (ok tt, db)
  committed (err e, db) = (err (wrapped "commit allocation transaction" e), db)

  after_update : Result ℕ → Inventory → Result (Unit {0}) × Inventory
  unfolding update_failed committed
  after_update (err e) db = (err (update_failed e), db)
  after_update (ok affected) db =
      if affected == nights
      then committed (commit (add_allocation p q from to db.rows) db)
      else (err (Err.plain "unexpected rows affected"), db)

  after_rows : ℕ → Result (Unit {0}) → Inventory → Result (Unit {0}) × Inventory
  unfolding after_update update_reply
  after_rows records (err e) db = (err (wrapped "rows iteration" e), db)
  after_rows records (ok _) db =
      if ltb records nights
      then (err (sentinel inventory_unavailable), db)
      else (let (reply, db1) = tx_call (update_reply p q from to db.rows) db in
          after_update reply db1)

  -- The loop over the locked rows ends at the first that is full; an iteration that breaks off is
  -- reported after its last row.
  after_query : Result (List DailyAllocation) → Inventory → Result (Unit {0}) × Inventory
  unfolding after_rows
  after_query (err e) db = (err (wrapped "query daily allocations for update" e), db)
  after_query (ok records) db =
      if any_full records
      then (err (sentinel inventory_unavailable), db)
      else (let (reply, db1) = tx_call (ok tt) db in after_rows (length records) reply db1)

  after_begin : Result (Unit {0}) → Inventory → Result (Unit {0}) × Inventory
  unfolding after_query
  after_begin (err e) db = (err (wrapped "begin allocation transaction" e), db)
  after_begin (ok _) db =
      let (reply, db1) = tx_call (ok (order_by_date (select_window p q from to db.rows))) db in
      after_query reply db1

-- `CommitAllocation`.
unfoldable pub commit_allocation : ℕ → ℕ → ℕ → ℕ → Inventory → Result (Unit {0}) × Inventory
unfolding after_begin tx_call
commit_allocation p q check_in check_out db =
    if ltb check_in check_out
    then (let (reply, db1) = tx_call (ok tt) db in
        after_begin p q (date check_in) (date check_out) (nights_between check_in check_out) reply
          db1)
    else (err (sentinel invalid_date_range), db)
