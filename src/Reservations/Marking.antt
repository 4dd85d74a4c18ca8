-- ===== src/Reservations/Marking.antt =====
-- How many holds are left past their time when those that GetExpiredHolds of
-- internal/adapter/repository/postgres/reservation_repo.go selects are marked.
use doki_core_backend.Prelude.{
  ℕ, zero, suc, ◌-◌, ◌≤◌, ◌≡◌, refl, ap, ◌∙◌, true, false, List, [], ◌∷◌, ◌++◌, arith, inl, inr,
  Bool-cases, ◌==◌, take, drop, length, length-drop,
}
use doki_core_backend.Prelude.Int.{ℤ, ◌≤ℤ◌}
use doki_core_backend.Reservations.{Reservation}
use doki_core_backend.Reservations.Repo.{
  is_expired, set_status, expired_rows, order_by_expiry, affected,
}
use doki_core_backend.Reservations.Expiring.{has_id, UniqueIds}
use doki_core_backend.Reservations.Clearing.{
  Covers, Covers-more, Covers-set_status, Covers-none, length-order, length-expired_rows,
  expired_rows-Covers, has_id-order,
}
use doki_core_backend.Reservations.Oldest.{nobody, order-split}

-- The ids of a list are among its first ones, as part of a longer list, and the rest of it.
has_id-split :
    (id batch : ℕ) (xs ys : List Reservation)
    → has_id id xs ≡ true
    → has_id id (take batch (xs ++ ys) ++ drop batch xs) ≡ true
has_id-split id zero xs ys h = h
has_id-split id (suc batch) [] ys h = absurd (ground (arith, h))
has_id-split id (suc batch) (x ∷ xs) ys h = elim (Bool-cases (x.id == id)) [
  | inl hit ↦ rw hit refl
  | inr miss ↦ rw miss (has_id-split id batch xs ys (ground (arith, h, miss)))
]

has_id-set_status :
    (now id other : ℕ) (rows : List Reservation)
    → has_id other (set_status now "EXPIRED" (λ row. row.id == id) rows) ≡ has_id other rows
unfolding set_status
has_id-set_status now id other [] = refl
has_id-set_status now id other (row ∷ rows) = elim (Bool-cases (row.id == id)) [
  | inl hit ↦ rw (hit, has_id-set_status now id other rows) refl
  | inr miss ↦ rw (miss, has_id-set_status now id other rows) refl
]

UniqueIds-set_status :
    (now id : ℕ) (rows : List Reservation)
    → UniqueIds rows
    → UniqueIds (set_status now "EXPIRED" (λ row. row.id == id) rows)
unfolding set_status
UniqueIds-set_status now id [] u = tt
UniqueIds-set_status now id (row ∷ rows) u = elim (Bool-cases (row.id == id)) [
  | inl hit ↦
      rw hit (has_id-set_status now id row.id rows ∙ u.0, UniqueIds-set_status now id rows u.1)
  | inr miss ↦
      rw miss (has_id-set_status now id row.id rows ∙ u.0, UniqueIds-set_status now id rows u.1)
]

set_status-absent :
    (now id : ℕ) (rows : List Reservation)
    → has_id id rows ≡ false
    → set_status now "EXPIRED" (λ row. row.id == id) rows ≡ rows
unfolding set_status
set_status-absent now id [] h = refl
set_status-absent now id (row ∷ rows) h = elim (Bool-cases (row.id == id)) [
  | inl hit ↦ absurd (ground (arith, h, hit))
  | inr miss ↦
      rw miss (ap (λ rs. row ∷ rs) (set_status-absent now id rows (ground (arith, h, miss))))
]

-- Marking one id takes at most one hold away.
affected-set_status :
    (cutoff : ℤ) (now id : ℕ) (rows : List Reservation)
    → UniqueIds rows
    → affected (is_expired cutoff) rows
      ≤ suc (affected (is_expired cutoff) (set_status now "EXPIRED" (λ row. row.id == id) rows))
unfolding set_status affected
affected-set_status cutoff now id [] u = omega arith
affected-set_status cutoff now id (row ∷ rows) u = elim (Bool-cases (row.id == id)) [
  | inl hit ↦
      let same : row.id ≡ id = ground (arith, hit) in
      rw (hit, set_status-absent now id rows (rw same at u.0)) (ground arith)
  | inr miss ↦ rw miss (ground (arith, affected-set_status cutoff now id rows u.1))
]

-- Rows with unique ids that are all covered are no more than the holds that cover them.
Covers-affected :
    (cutoff : ℤ) (holds rows : List Reservation)
    → UniqueIds rows
    → Covers cutoff holds rows
    → affected (is_expired cutoff) rows ≤ length holds
Covers-affected cutoff [] rows u c = omega (arith, Covers-none cutoff rows c)
Covers-affected cutoff (a ∷ holds) rows u c = omega (
  arith,
  affected-set_status cutoff 0 a.id rows u,
  Covers-affected cutoff holds _ (UniqueIds-set_status 0 a.id rows u)
      (Covers-set_status cutoff 0 a holds rows c),
)

-- The table after the holds are marked one after another.
abbrev pub mark_all : ℕ → List Reservation → List Reservation → List Reservation
mark_all now [] rows = rows
mark_all now (a ∷ holds) rows =
    mark_all now holds (set_status now "EXPIRED" (λ row. row.id == a.id) rows)

pub UniqueIds-mark_all :
    (now : ℕ) (holds rows : List Reservation) → UniqueIds rows → UniqueIds (mark_all now holds rows)
UniqueIds-mark_all now [] rows u = u
UniqueIds-mark_all now (a ∷ holds) rows u =
    UniqueIds-mark_all now holds _ (UniqueIds-set_status now a.id rows u)

Covers-mark_all :
    (cutoff : ℤ) (now : ℕ) (holds rest rows : List Reservation)
    → Covers cutoff (holds ++ rest) rows
    → Covers cutoff rest (mark_all now holds rows)
Covers-mark_all cutoff now [] rest rows c = c
Covers-mark_all cutoff now (a ∷ holds) rest rows c =
    Covers-mark_all cutoff now holds rest _ (Covers-set_status cutoff now a (holds ++ rest) rows c)

module _ (early late : ℤ) (not_after : early ≤ℤ late) where
  -- The selection and what its limit leaves of the older holds cover the older holds.
  oldest-Covers :
      (batch : ℕ) (rows : List Reservation)
      → Covers early
          (take batch (order_by_expiry (expired_rows late nobody rows))
            ++ drop batch (order_by_expiry (expired_rows early nobody rows)))
          rows
  oldest-Covers batch rows = rw (order-split early late not_after rows) (
      Covers-more early (expired_rows early nobody rows) _ rows
        (λ id h.
          has_id-split id batch (order_by_expiry (expired_rows early nobody rows)) _
            (has_id-order id (expired_rows early nobody rows) ∙ h))
        (expired_rows-Covers early rows))

  -- Marking what is selected under the later cutoff takes away as many of the older holds as the
  -- limit lets it, or all.
  pub oldest-marked :
      (now batch : ℕ) (rows : List Reservation)
      → UniqueIds rows
      → affected
          (is_expired early)
          (mark_all now (take batch (order_by_expiry (expired_rows late nobody rows))) rows)
        ≤ affected (is_expired early) rows - batch
  oldest-marked now batch rows u =
      let selected = take batch (order_by_expiry (expired_rows late nobody rows)) in
      let rest = drop batch (order_by_expiry (expired_rows early nobody rows)) in
      omega (
        arith,
        Covers-affected early rest (mark_all now selected rows)
            (UniqueIds-mark_all now selected rows u)
            (Covers-mark_all early now selected rest rows (oldest-Covers batch rows)),
        length-drop batch (order_by_expiry (expired_rows early nobody rows)),
        length-order (expired_rows early nobody rows),
        length-expired_rows early rows,
      )
