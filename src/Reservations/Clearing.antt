-- ===== src/Reservations/Clearing.antt =====
-- That the rows which GetExpiredHolds of
-- internal/adapter/repository/postgres/reservation_repo.go selects are all that are due.
use doki_core_backend.Prelude.{
  ℕ, zero, suc, ◌≤◌, ◌≡◌, refl, ap, true, false, List, [], ◌∷◌, arith, inl, inr, Bool-cases, ◌==◌,
  take, length,
}
use doki_core_backend.Prelude.Int.{ℤ}
use doki_core_backend.Reservations.{Reservation}
use doki_core_backend.Reservations.Repo.{
  is_expired, set_status, expired_rows, order_by_expiry, insert_by_expiry, affected,
}
use doki_core_backend.Reservations.Expiring.{has_id}

-- Every row that is past its time has its id among the holds.
abbrev pub Covers : ℤ → List Reservation → List Reservation → Type 0
Covers cutoff holds [] = Unit
Covers cutoff holds (row ∷ rows) =
    (is_expired cutoff row ≡ true → has_id row.id holds ≡ true) × Covers cutoff holds rows

has_id-insert :
    (id : ℕ) (a : Reservation) (rows : List Reservation)
    → has_id id (insert_by_expiry a rows) ≡ has_id id (a ∷ rows)
unfolding insert_by_expiry
has_id-insert id a [] = refl
has_id-insert id a (b ∷ rows) = ground (arith, has_id-insert id a rows)

pub has_id-order :
    (id : ℕ) (rows : List Reservation) → has_id id (order_by_expiry rows) ≡ has_id id rows
unfolding order_by_expiry
has_id-order id [] = refl
has_id-order id (a ∷ rows) =
    ground (arith, has_id-insert id a (order_by_expiry rows), has_id-order id rows)

length-insert :
    (a : Reservation) (rows : List Reservation)
    → length (insert_by_expiry a rows) ≡ suc (length rows)
unfolding insert_by_expiry
length-insert a [] = refl
length-insert a (b ∷ rows) = ground (arith, length-insert a rows)

pub length-order : (rows : List Reservation) → length (order_by_expiry rows) ≡ length rows
unfolding order_by_expiry
length-order [] = refl
length-order (a ∷ rows) = ground (arith, length-insert a (order_by_expiry rows), length-order rows)

-- With no row locked, as many rows are selected as are past their time.
pub length-expired_rows :
    (cutoff : ℤ) (rows : List Reservation)
    → length (expired_rows cutoff (λ id. false) rows) ≡ affected (is_expired cutoff) rows
unfolding expired_rows affected
length-expired_rows cutoff [] = refl
length-expired_rows cutoff (a ∷ rows) = ground (arith, length-expired_rows cutoff rows)

take_all : (n : ℕ) (rows : List Reservation) → length rows ≤ n → take n rows ≡ rows
take_all zero [] h = refl
take_all zero (a ∷ rows) h = absurd (omega (arith, h))
take_all (suc n) [] h = refl
take_all (suc n) (a ∷ rows) h = ap (λ rs. a ∷ rs) (take_all n rows (omega (arith, h)))

pub Covers-more :
    (cutoff : ℤ) (xs ys rows : List Reservation)
    → ((id : ℕ) → has_id id xs ≡ true → has_id id ys ≡ true)
    → Covers cutoff xs rows
    → Covers cutoff ys rows
Covers-more cutoff xs ys [] f h = tt
Covers-more cutoff xs ys (row ∷ rows) f h =
    (λ e. f row.id (h.0 e), Covers-more cutoff xs ys rows f h.1)

expired_rows-more :
    (cutoff : ℤ) (a : Reservation) (rows : List Reservation) (id : ℕ)
    → has_id id (expired_rows cutoff (λ id. false) rows) ≡ true
    → has_id id (expired_rows cutoff (λ id. false) (a ∷ rows)) ≡ true
unfolding expired_rows
expired_rows-more cutoff a rows id h = ground (arith, h)

expired_rows-first :
    (cutoff : ℤ) (a : Reservation) (rows : List Reservation)
    → is_expired cutoff a ≡ true
    → has_id a.id (expired_rows cutoff (λ id. false) (a ∷ rows)) ≡ true
unfolding expired_rows
expired_rows-first cutoff a rows h = ground (arith, h)

pub expired_rows-Covers :
    (cutoff : ℤ) (rows : List Reservation)
    → Covers cutoff (expired_rows cutoff (λ id. false) rows) rows
expired_rows-Covers cutoff [] = tt
expired_rows-Covers cutoff (a ∷ rows) = (
  expired_rows-first cutoff a rows,
  Covers-more cutoff (expired_rows cutoff (λ id. false) rows) _ rows
      (expired_rows-more cutoff a rows) (expired_rows-Covers cutoff rows),
)

-- The selection covers the table, if its limit is not below the number of rows past their time.
pub selected-Covers :
    (cutoff : ℤ) (limit : ℕ) (rows : List Reservation)
    → affected (is_expired cutoff) rows ≤ limit
    → Covers cutoff (take limit (order_by_expiry (expired_rows cutoff (λ id. false) rows))) rows
selected-Covers cutoff limit rows h =
    let few : length (order_by_expiry (expired_rows cutoff (λ id. false) rows)) ≤ limit = omega (
      arith,
      h,
      length-order (expired_rows cutoff (λ id. false) rows),
      length-expired_rows cutoff rows,
    ) in
    rw (take_all limit (order_by_expiry (expired_rows cutoff (λ id. false) rows)) few) (
      Covers-more cutoff (expired_rows cutoff (λ id. false) rows) _ rows
        (λ id e. rw (has_id-order id (expired_rows cutoff (λ id. false) rows)) e)
        (expired_rows-Covers cutoff rows))

-- After a hold is marked, the others cover what is left.
pub Covers-set_status :
    (cutoff : ℤ) (now : ℕ) (a : Reservation) (holds rows : List Reservation)
    → Covers cutoff (a ∷ holds) rows
    → Covers cutoff holds (set_status now "EXPIRED" (λ row. row.id == a.id) rows)
unfolding set_status is_expired
Covers-set_status cutoff now a holds [] h = tt
Covers-set_status cutoff now a holds (row ∷ rows) h = elim (Bool-cases (row.id == a.id)) [
  | inl hit ↦
      rw hit (λ e. absurd (ground (arith, e)), Covers-set_status cutoff now a holds rows h.1)
  | inr miss ↦
      rw miss (λ e. ground (arith, h.0 e, miss), Covers-set_status cutoff now a holds rows h.1)
]

-- Where no hold is left, no row is past its time.
pub Covers-none :
    (cutoff : ℤ) (rows : List Reservation)
    → Covers cutoff [] rows
    → affected (is_expired cutoff) rows ≡ 0
unfolding affected
Covers-none cutoff [] h = refl
Covers-none cutoff (row ∷ rows) h = elim (Bool-cases (is_expired cutoff row)) [
  | inl due ↦ absurd (ground (arith, h.0 due))
  | inr not_due ↦ rw not_due (Covers-none cutoff rows h.1)
]
