-- ===== src/Reservations/Repo/Swap.antt =====
-- `UpdateStatus` of internal/adapter/repository/postgres/reservation_repo.go as a compare-and-swap.
use text.Mathlib.Text.{◌==◌ as str_eq}
use text.Mathlib.TextEquality.{eq_iff}
use doki_core_backend.Prelude.{
  ◌&&◌, true, ℕ, ◌≡◌, ◌≢◌, ◌⊎◌, inl, inr, refl, false, String, List, [], ◌∷◌, Option, none, some,
  arith, ◌==◌, Bool-cases,
}
use doki_core_backend.Errors.{
  sentinel, Result, ok, err, reservation_not_found, invalid_status_change,
}
use doki_core_backend.Reservations.{Reservation, Db, deliver, call}
use doki_core_backend.Reservations.Repo.{
  find_row, affected, set_status, update_status_of, guarded, why_unaffected,
  mark_reservation_expired,
}

abbrev pub quiet : List Reservation → Db
quiet rows = record {
  rows = rows;
  locked = λ id. false;
  property_known = λ id. true;
  room_type_known = λ id. true;
  faults = [];
}

-- The outcomes in terms of the code's own test.
abbrev ByGuard : ℕ → ℕ → String → String → List Reservation → Result (Unit {0}) × Db → Type 0
ByGuard now id old new rows out =
    (affected (guarded id old) rows ≢ 0)
      × (out ≡ (ok tt, quiet (set_status now new (guarded id old) rows)))
    ⊎ (affected (guarded id old) rows ≡ 0)
      × ((find_row (λ row. row.id == id) rows ≢ none)
            × (out ≡ (err (sentinel invalid_status_change), quiet rows))
          ⊎ (find_row (λ row. row.id == id) rows ≡ none)
            × (out ≡ (err (sentinel reservation_not_found), quiet rows)))

-- What the look-up after a vain update tells.
abbrev told : Option Reservation → Result (Unit {0})
told none = err (sentinel reservation_not_found)
told (some row) = err (sentinel invalid_status_change)

abbrev explained : Result Reservation × Db → Result (Unit {0}) × Db
explained out = (why_unaffected out.0, out.1)

-- A row that the update is about: it has the id and, where one is named, the old status.
abbrev pub Target : ℕ → String → Reservation → Type 0
Target id old row = (row.id ≡ id) × ((old ≡ "") ⊎ (row.status ≡ old))

abbrev pub AnyRow : (Reservation → Type 0) → List Reservation → Type 0
AnyRow P [] = ⊥
AnyRow P (row ∷ rows) = P row ⊎ AnyRow P rows

-- Each target has the new status and the time of the update, and all other rows are as they were.
abbrev pub Swapped : ℕ → ℕ → String → String → List Reservation → List Reservation → Type 0
Swapped now id old new [] [] = Unit
Swapped now id old new [] (b ∷ ys) = ⊥
Swapped now id old new (a ∷ xs) [] = ⊥
Swapped now id old new (a ∷ xs) (b ∷ ys) =
    (Target id old a × (b ≡ record a { status = new; updated_at = now })
      ⊎ ¬ (Target id old a) × (b ≡ a))
    × Swapped now id old new xs ys

guarded-Target :
    (id : ℕ) (old : String) (row : Reservation) → guarded id old row ≡ true → Target id old row
unfolding guarded
guarded-Target id old row h = elim (Bool-cases (str_eq old "")) [
  | inl any ↦ (ground (arith, rw any at h), inl ((eq_iff old "").0 any))
  | inr one ↦
      let both : (row.id == id && str_eq row.status old) ≡ true = rw one at h in
      (ground (arith, both), inr ((eq_iff row.status old).0 (ground (arith, both))))
]

Target-guarded :
    (id : ℕ) (old : String) (row : Reservation) → Target id old row → guarded id old row ≡ true
unfolding guarded
Target-guarded id old row (i, inl e) = rw ((eq_iff old "").1 e) (ground (arith, i))
Target-guarded id old row (i, inr e) =
    let same : str_eq row.status old ≡ true = (eq_iff row.status old).1 e in ground (arith, i, same)

set_status-Swapped :
    (now id : ℕ) (old new : String) (rows : List Reservation)
    → Swapped now id old new rows (set_status now new (guarded id old) rows)
unfolding set_status
set_status-Swapped now id old new [] = tt
set_status-Swapped now id old new (row ∷ rows) = elim (Bool-cases (guarded id old row)) [
  | inl hit ↦
      rw hit (inl (guarded-Target id old row hit, refl), set_status-Swapped now id old new rows)
  | inr miss ↦ rw miss (
    inr (λ t. absurd (ground (arith, Target-guarded id old row t, miss)), refl),
    set_status-Swapped now id old new rows,
  )
]

abbrev pub HasId : ℕ → Reservation → Type 0
HasId id row = row.id ≡ id

-- The outcomes of a swap of the status `old`, or of any if it is empty.
abbrev pub Swaps : ℕ → ℕ → String → String → List Reservation → Result (Unit {0}) × Db → Type 0
Swaps now id old new rows out =
    AnyRow (Target id old) rows
      × ((rows' : List Reservation) × Swapped now id old new rows rows'
          × (out ≡ (ok tt, quiet rows')))
    ⊎ ¬ (AnyRow (Target id old) rows)
      × (AnyRow (HasId id) rows × (out ≡ (err (sentinel invalid_status_change), quiet rows))
          ⊎ ¬ (AnyRow (HasId id) rows) × (out ≡ (err (sentinel reservation_not_found), quiet rows)))

-- With a database that answers: `MarkReservationExpired` sets every row of the id to EXPIRED, whatever
-- its status is, and changes no other row.
pub mark_reservation_expired-Swapped :
    (now id : ℕ) (rows : List Reservation)
    → (rows' : List Reservation) × Swapped now id "" "EXPIRED" rows rows'
      × ((mark_reservation_expired now id (quiet rows)).1 ≡ quiet rows')
unfolding mark_reservation_expired call deliver update_status_of
mark_reservation_expired-Swapped now id rows = (
  set_status now "EXPIRED" (guarded id "") rows,
  set_status-Swapped now id "" "EXPIRED" rows,
  unfold guarded in refl,
)
