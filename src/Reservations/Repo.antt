-- ===== src/Reservations/Repo.antt =====
-- The queries and updates of internal/adapter/repository/postgres/reservation_repo.go.
pub mod Swap
use text.Mathlib.Text.{◌==◌ as str_eq}
use doki_core_backend.Prelude.{
  ℕ, zero, suc, Bool, true, false, ◌&&◌, not, String, List, [], ◌∷◌, Option, none, some, ◌==◌,
  if◌then◌else◌, take,
}
use doki_core_backend.Prelude.Int.{ℤ, pos, negsuc, leb_ℤ}
use doki_core_backend.Errors.{
  Err, sentinel, wrapped, no_rows, Result, ok, err, reservation_not_found, invalid_status_change,
}
use doki_core_backend.Reservations.{
  Reservation, Db, Statement, call, insert_row, insert_failed, linked_in, texts_fit,
}
use doki_core_backend.Columns.{is_assignable, kept_text}

-- `ReservationRepository.CreateReservation`: what is missing in the aggregate is filled in first.
completed : ℕ → String → ℕ → Reservation → Reservation
completed uuid fresh_ref now res =
    let created = if res.created_at == 0 then now else res.created_at in
    record res {
      id = if res.id == 0 then uuid else res.id;
      booking_reference =
          if str_eq res.booking_reference "" then fresh_ref else res.booking_reference;
      hold_token = none;
      created_at = created;
      updated_at = created;
    }

-- The widths of the columns, and the row as they keep it.
row_fits : Reservation → Bool
row_fits res =
    texts_fit res.booking_reference res.guest_name res.guest_phone && is_assignable 50 res.status

row_kept : Reservation → Reservation
row_kept res = record res {
  booking_reference = kept_text 32 res.booking_reference;
  guest_name = kept_text 150 res.guest_name;
  guest_phone = kept_text 20 res.guest_phone;
  status = kept_text 50 res.status;
}

saved : Result (Unit {0}) → Result (Unit {0})
saved (ok _) = ok tt
saved (err e) = err (insert_failed "insert reservation" e)

unfoldable pub create_reservation : ℕ → String → ℕ → Reservation → Db → Result (Unit {0}) × Db
unfolding completed saved row_fits row_kept
create_reservation uuid fresh_ref now res db =
    let row = completed uuid fresh_ref now res in
    let (reply, db1) =
      call
        (insert_row (row_fits row) (linked_in db row.property_id row.room_type_id) (row_kept row))
        db in
    (saved reply, db1)

-- SELECT … WHERE, of one row: the first that fits, or `pgx.ErrNoRows`.
unfoldable pub find_row : (Reservation → Bool) → List Reservation → Option Reservation
find_row fits [] = none
find_row fits (row ∷ rows) = if fits row then some row else find_row fits rows

select_one : (Reservation → Bool) → Statement Reservation
select_one fits rows = elim (find_row fits rows) [
  | none ↦ (err no_rows, rows)
  | some row ↦ (ok row, rows)
]

-- `errors.Is(err, pgx.ErrNoRows)`.
is_no_rows : Err → Bool
is_no_rows (wrapped text e) = is_no_rows e
is_no_rows no_rows = true
is_no_rows _ = false

fetched : String → Result Reservation → Result Reservation
fetched text (ok row) = ok row
fetched text (err e) =
    if is_no_rows e then err (sentinel reservation_not_found) else err (wrapped text e)

-- The select leaves out the token.
tokenless : Result Reservation → Result Reservation
tokenless (ok row) = ok (record row { hold_token = none })
tokenless (err e) = err e

unfoldable pub get_by_id : ℕ → Db → Result Reservation × Db
unfolding select_one fetched tokenless is_no_rows
get_by_id id db =
    let (reply, db1) = call (select_one (λ row. row.id == id)) db in
    (tokenless (fetched "get reservation by id" reply), db1)

unfoldable pub get_by_reference : String → Db → Result Reservation × Db
unfolding select_one fetched tokenless is_no_rows
get_by_reference ref db =
    let (reply, db1) = call (select_one (λ row. str_eq row.booking_reference ref)) db in
    (tokenless (fetched "get reservation by reference" reply), db1)

-- UPDATE … SET status, updated_at WHERE; the reply is the number of rows affected.
unfoldable pub set_status : ℕ → String → (Reservation → Bool) → List Reservation → List Reservation
set_status now status fits [] = []
set_status now status fits (row ∷ rows) =
    (if fits row then record row { status = status; updated_at = now } else row)
    ∷ set_status now status fits rows

unfoldable pub affected : (Reservation → Bool) → List Reservation → ℕ
affected fits [] = 0
affected fits (row ∷ rows) = if fits row then suc (affected fits rows) else affected fits rows

unfoldable pub update_status_of : ℕ → String → (Reservation → Bool) → Statement ℕ
update_status_of now status fits rows = (ok (affected fits rows), set_status now status fits rows)

-- `WHERE id = $2 AND status = $3`, or without the second test where `oldStatus` is empty.
pub guarded : ℕ → String → Reservation → Bool
guarded id old row = if str_eq old "" then row.id == id else (row.id == id && str_eq row.status old)

-- Where no row was affected the row is looked up, to tell a missing one from a wrong status.
why_unaffected : Result Reservation → Result (Unit {0})
why_unaffected (ok row) = err (sentinel invalid_status_change)
why_unaffected (err e) = err e

after_update : ℕ → Result ℕ → Db → Result (Unit {0}) × Db
unfolding why_unaffected
after_update id (err e) db = (err (wrapped "update reservation status" e), db)
after_update id (ok zero) db = let (reply, db1) = get_by_id id db in (why_unaffected reply, db1)
after_update id (ok (suc n)) db = (ok tt, db)

unfoldable pub update_status : ℕ → ℕ → String → String → Db → Result (Unit {0}) × Db
unfolding update_status_of guarded after_update
update_status now id old new db =
    let (reply, db1) = call (update_status_of now new (guarded id old)) db in
    after_update id reply db1

-- `status = 'INVENTORY_HOLD' AND hold_expires_at <= $1`; NULL is not at most anything.
unfoldable pub is_expired : ℤ → Reservation → Bool
is_expired cutoff row =
    str_eq row.status "INVENTORY_HOLD"
    && (elim row.hold_expires_at [ none ↦ false | some t ↦ leb_ℤ t cutoff ])

-- NULLs come last in ascending order; the filter has left none.
unfoldable pub expires_first : Reservation → Reservation → Bool
expires_first a b = elim a.hold_expires_at [
  | none ↦ false
  | some t ↦ (elim b.hold_expires_at [ none ↦ true | some u ↦ leb_ℤ t u ])
]

-- ORDER BY hold_expires_at ASC.
unfoldable pub insert_by_expiry : Reservation → List Reservation → List Reservation
insert_by_expiry row [] = row ∷ []
insert_by_expiry row (other ∷ rows) =
    if expires_first row other then row ∷ other ∷ rows else other ∷ insert_by_expiry row rows

unfoldable pub order_by_expiry : List Reservation → List Reservation
order_by_expiry [] = []
order_by_expiry (row ∷ rows) = insert_by_expiry row (order_by_expiry rows)

-- FOR UPDATE SKIP LOCKED takes the rows that nobody else has locked.
unfoldable pub expired_rows : ℤ → (ℕ → Bool) → List Reservation → List Reservation
expired_rows cutoff locked [] = []
expired_rows cutoff locked (row ∷ rows) =
    if is_expired cutoff row && not (locked row.id)
    then row ∷ expired_rows cutoff locked rows
    else expired_rows cutoff locked rows

-- `limit <= 0` means 100.
unfoldable pub limit_of : ℤ → ℕ
limit_of (pos zero) = 100
limit_of (pos (suc n)) = suc n
limit_of (negsuc n) = 100

unfoldable pub select_expired : ℤ → ℕ → (ℕ → Bool) → Statement (List Reservation)
unfolding order_by_expiry insert_by_expiry expires_first
select_expired cutoff limit locked rows =
    (ok (take limit (order_by_expiry (expired_rows cutoff locked rows))), rows)

unfoldable pub query_failed : Result (List Reservation) → Result (List Reservation)
query_failed (ok rows) = ok rows
query_failed (err e) = err (wrapped "query expired holds" e)

unfoldable pub get_expired_holds : ℤ → ℤ → Db → Result (List Reservation) × Db
unfolding select_expired query_failed
get_expired_holds cutoff limit db =
    let (reply, db1) = call (select_expired cutoff (limit_of limit) db.locked) db in
    (query_failed reply, db1)

unfoldable pub marked : Result ℕ → Result (Unit {0})
marked (ok zero) = err (sentinel reservation_not_found)
marked (ok (suc n)) = ok tt
marked (err e) = err (wrapped "mark reservation expired" e)

unfoldable pub mark_reservation_expired : ℕ → ℕ → Db → Result (Unit {0}) × Db
unfolding update_status_of marked
mark_reservation_expired now id db =
    let (reply, db1) = call (update_status_of now "EXPIRED" (λ row. row.id == id)) db in
    (marked reply, db1)
