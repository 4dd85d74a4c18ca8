-- ===== src/Reservations/Expiring.antt =====
-- Which rows of the table of reservations GetExpiredHolds and MarkReservationExpired of
-- internal/adapter/repository/postgres/reservation_repo.go can touch.
use doki_core_backend.Prelude.{
  ℕ, zero, suc, ◌≡◌, refl, ap, sym, ◌∙◌, Bool, true, false, ◌&&◌, not, List, [], ◌∷◌, arith, ◌⊎◌,
  inl, inr, Bool-cases, if◌then◌else◌, ◌==◌, take,
}
use doki_core_backend.Prelude.Int.{ℤ}
use doki_core_backend.Reservations.{Reservation}
use doki_core_backend.Reservations.Repo.{
  is_expired, set_status, expired_rows, order_by_expiry, insert_by_expiry, expires_first,
}

-- The row that MarkReservationExpired leaves of one.
abbrev pub expired_at : ℕ → Reservation → Reservation
expired_at now row = record row { status = "EXPIRED"; updated_at = now }

-- Each row is as it was, or was a hold past its time and is now EXPIRED.
abbrev pub OnlyExpires : ℤ → ℕ → List Reservation → List Reservation → Type 0
OnlyExpires cutoff now [] [] = Unit
OnlyExpires cutoff now (a ∷ xs) (b ∷ ys) =
    ((b ≡ a) ⊎ (is_expired cutoff a ≡ true) × (b ≡ expired_at now a)) × OnlyExpires cutoff now xs ys
OnlyExpires cutoff now [] (b ∷ ys) = ⊥
OnlyExpires cutoff now (a ∷ xs) [] = ⊥

abbrev pub In : Reservation → List Reservation → Type 0
In a [] = ⊥
In a (b ∷ ys) = (a ≡ b) ⊎ In a ys

abbrev pub has_id : ℕ → List Reservation → Bool
has_id id [] = false
has_id id (row ∷ rows) = if row.id == id then true else has_id id rows

-- The primary key.
abbrev pub UniqueIds : List Reservation → Type 0
UniqueIds [] = Unit
UniqueIds (row ∷ rows) = (has_id row.id rows ≡ false) × UniqueIds rows

-- Every row of that id is a hold past its time.
abbrev pub IsDue : ℤ → ℕ → List Reservation → Type 0
IsDue cutoff id [] = Unit
IsDue cutoff id (row ∷ rows) =
    ((row.id == id) ≡ true → is_expired cutoff row ≡ true) × IsDue cutoff id rows

abbrev pub All : (Reservation → Type 0) → List Reservation → Type 0
All P [] = Unit
All P (row ∷ rows) = P row × All P rows

pub OnlyExpires-refl :
    (cutoff : ℤ) (now : ℕ) (rows : List Reservation) → OnlyExpires cutoff now rows rows
OnlyExpires-refl cutoff now [] = tt
OnlyExpires-refl cutoff now (row ∷ rows) = (inl refl, OnlyExpires-refl cutoff now rows)

-- Marking a due id keeps to that.
pub OnlyExpires-set_status :
    (cutoff : ℤ) (now id : ℕ) (xs ys : List Reservation)
    → IsDue cutoff id xs
    → OnlyExpires cutoff now xs ys
    → OnlyExpires cutoff now xs (set_status now "EXPIRED" (λ row. row.id == id) ys)
unfolding set_status
OnlyExpires-set_status cutoff now id [] [] due h = tt
OnlyExpires-set_status cutoff now id [] (b ∷ ys) due h = elim h [ ]
OnlyExpires-set_status cutoff now id (a ∷ xs) [] due h = elim h [ ]
OnlyExpires-set_status cutoff now id (a ∷ xs) (b ∷ ys) due h =
    (head h.0, OnlyExpires-set_status cutoff now id xs ys due.1 h.1)
  where
    head :
        (b ≡ a) ⊎ (is_expired cutoff a ≡ true) × (b ≡ expired_at now a)
        → (let b' = if b.id == id then record b { status = "EXPIRED"; updated_at = now } else b in
            (b' ≡ a) ⊎ (is_expired cutoff a ≡ true) × (b' ≡ expired_at now a))
    head (inl e) = elim (Bool-cases (b.id == id)) [
      | inl hit ↦ rw hit (
          inr
            (due.0 (ap (λ (row : Reservation). row.id == id) (sym e) ∙ hit), ap (expired_at now) e))
      | inr miss ↦ rw miss (inl e)
    ]
    head (inr (d, e)) = elim (Bool-cases (b.id == id)) [
      | inl hit ↦ rw hit (inr (d, ap (expired_at now) e))
      | inr miss ↦ rw miss (inr (d, e))
    ]

has_id-In : (a : Reservation) (rows : List Reservation) → In a rows → has_id a.id rows ≡ true
has_id-In a [] h = elim h [ ]
has_id-In a (b ∷ ys) (inl e) =
    let same : a.id ≡ b.id = ap (λ (row : Reservation). row.id) e in ground (arith, same)
has_id-In a (b ∷ ys) (inr h) = ground (arith, has_id-In a ys h)

IsDue-absent :
    (cutoff : ℤ) (id : ℕ) (rows : List Reservation) → has_id id rows ≡ false → IsDue cutoff id rows
IsDue-absent cutoff id [] h = tt
IsDue-absent cutoff id (b ∷ ys) h = (λ hit. ground arith, IsDue-absent cutoff id ys (ground arith))

-- With unique ids a row past its time is due.
pub IsDue-In :
    (cutoff : ℤ) (a : Reservation) (rows : List Reservation)
    → UniqueIds rows
    → In a rows
    → is_expired cutoff a ≡ true
    → IsDue cutoff a.id rows
IsDue-In cutoff a [] u h e = tt
IsDue-In cutoff a (b ∷ ys) u (inl x) e =
    let same : b.id ≡ a.id = ap (λ (row : Reservation). row.id) (sym x) in
    (λ hit. ap (is_expired cutoff) (sym x) ∙ e, IsDue-absent cutoff a.id ys (rw same at u.0))
IsDue-In cutoff a (b ∷ ys) u (inr h) e = (
  λ hit. ground (
    arith,
    has_id-In a ys h,
    ap (λ (id : ℕ). has_id id ys) {x = b.id} {y = a.id} (ground arith),
    u.0,
  ),
  IsDue-In cutoff a ys u.1 h e,
)

-- What GetExpiredHolds selects.
All-insert :
    (P : Reservation → Type 0) (a : Reservation) (rows : List Reservation)
    → P a
    → All P rows
    → All P (insert_by_expiry a rows)
unfolding insert_by_expiry
All-insert P a [] h k = (h, tt)
All-insert P a (b ∷ ys) h k = elim (Bool-cases (expires_first a b)) [
  | inl e ↦ rw e (h, k)
  | inr e ↦ rw e (k.0, All-insert P a ys h k.1)
]

pub All-order :
    (P : Reservation → Type 0) (rows : List Reservation) → All P rows → All P (order_by_expiry rows)
unfolding order_by_expiry
All-order P [] h = tt
All-order P (a ∷ rows) h = All-insert P a (order_by_expiry rows) h.0 (All-order P rows h.1)

All-take :
    (P : Reservation → Type 0) (n : ℕ) (rows : List Reservation) → All P rows → All P (take n rows)
All-take P zero rows h = tt
All-take P (suc n) [] h = tt
All-take P (suc n) (a ∷ rows) h = (h.0, All-take P n rows h.1)

pub All-map :
    (P Q : Reservation → Type 0) (rows : List Reservation)
    → ((a : Reservation) → P a → Q a)
    → All P rows
    → All Q rows
All-map P Q [] f h = tt
All-map P Q (a ∷ rows) f h = (f a h.0, All-map P Q rows f h.1)

abbrev Found : ℤ → List Reservation → Reservation → Type 0
Found cutoff rows a = In a rows × (is_expired cutoff a ≡ true)

All-expired_rows :
    (cutoff : ℤ) (locked : ℕ → Bool) (rows : List Reservation)
    → All (Found cutoff rows) (expired_rows cutoff locked rows)
unfolding expired_rows
All-expired_rows cutoff locked [] = tt
All-expired_rows cutoff locked (a ∷ rows) =
    let rest : All (Found cutoff (a ∷ rows)) (expired_rows cutoff locked rows) =
      All-map (Found cutoff rows) (Found cutoff (a ∷ rows)) _ (λ b h. (inr h.0, h.1))
        (All-expired_rows cutoff locked rows) in
    elim (Bool-cases (is_expired cutoff a && not (locked a.id))) [
      | inl e ↦ rw e ((inl refl, ground arith), rest)
      | inr e ↦ rw e rest
    ]

-- With unique ids, every row that is selected is due.
pub selected-IsDue :
    (cutoff : ℤ) (locked : ℕ → Bool) (limit : ℕ) (rows : List Reservation)
    → UniqueIds rows
    → All
        (λ a. IsDue cutoff a.id rows)
        (take limit (order_by_expiry (expired_rows cutoff locked rows)))
selected-IsDue cutoff locked limit rows u =
    All-map (Found cutoff rows) (λ a. IsDue cutoff a.id rows) _
      (λ a h. IsDue-In cutoff a rows u h.0 h.1)
      (All-take _ limit _ (All-order _ _ (All-expired_rows cutoff locked rows)))
