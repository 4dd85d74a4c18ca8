-- ===== src/Reservations/Oldest.antt =====
-- That GetExpiredHolds of internal/adapter/repository/postgres/reservation_repo.go selects the
-- oldest holds first.
use doki_core_backend.Prelude.{
  ℕ, ◌≡◌, refl, ap, Bool, true, false, ◌&&◌, not, List, [], ◌∷◌, ◌++◌, Option, some, none, arith,
  inl, inr, Bool-cases, if◌then◌else◌,
}
use doki_core_backend.Prelude.Int.{ℤ, ◌≤ℤ◌, leb_ℤ}
use doki_core_backend.Reservations.{Reservation}
use doki_core_backend.Reservations.Repo.{
  is_expired, expired_rows, order_by_expiry, insert_by_expiry, expires_first,
}
use doki_core_backend.Reservations.Expiring.{All, All-map, All-order}

-- The holds that are past the later cutoff and not past the earlier one.
pub later : ℤ → ℤ → List Reservation → List Reservation
later early late [] = []
later early late (row ∷ rows) =
    if is_expired late row && not (is_expired early row)
    then row ∷ later early late rows
    else later early late rows

-- The tests of the two queries on the expiry alone.
abbrev past : ℤ → Option ℤ → Bool
past cutoff e = elim e [ none ↦ false | some t ↦ leb_ℤ t cutoff ]

abbrev sooner : Option ℤ → Option ℤ → Bool
sooner a b = elim a [ none ↦ false | some t ↦ (elim b [ none ↦ true | some u ↦ leb_ℤ t u ]) ]

past_sooner :
    (early late : ℤ) (a : Option ℤ) → early ≤ℤ late → past early a ≡ true → past late a ≡ true
past_sooner early late none h e = absurd (ground (arith, e))
past_sooner early late (some t) h e = ground (arith, h, e)

past_first :
    (early : ℤ) (a b : Option ℤ)
    → past early a ≡ true
    → past early b ≡ false
    → (b ≡ none → ⊥)
    → (sooner a b ≡ true) × (sooner b a ≡ false)
past_first early none b x y z = absurd (ground (arith, x))
past_first early (some t) none x y z = absurd (z refl)
past_first early (some t) (some u) x y z = (ground (arith, x, y), ground (arith, x, y))

expired_sooner :
    (early late : ℤ) (a : Reservation)
    → early ≤ℤ late
    → is_expired early a ≡ true
    → is_expired late a ≡ true
unfolding is_expired
expired_sooner early late a h e =
    ground (arith, e, past_sooner early late a.hold_expires_at h (ground (arith, e)))

older_first :
    (early late : ℤ) (a b : Reservation)
    → is_expired early a ≡ true
    → is_expired late b ≡ true
    → is_expired early b ≡ false
    → (expires_first a b ≡ true) × (expires_first b a ≡ false)
unfolding is_expired expires_first
older_first early late a b x y z =
    past_first early a.hold_expires_at b.hold_expires_at (ground (arith, x)) (ground (arith, y, z))
      (λ n. absurd (ground (arith, ap (past late) n, y)))

abbrev pub nobody : ℕ → Bool
nobody id = false

expired_rows-All :
    (cutoff : ℤ) (rows : List Reservation)
    → All (λ a. is_expired cutoff a ≡ true) (expired_rows cutoff nobody rows)
unfolding expired_rows
expired_rows-All cutoff [] = tt
expired_rows-All cutoff (a ∷ rows) = elim (Bool-cases (is_expired cutoff a)) [
  | inl e ↦ rw e (e, expired_rows-All cutoff rows)
  | inr e ↦ rw e (expired_rows-All cutoff rows)
]

abbrev IsLater : ℤ → ℤ → Reservation → Type 0
IsLater early late a = (is_expired late a ≡ true) × (is_expired early a ≡ false)

later-All :
    (early late : ℤ) (rows : List Reservation) → All (IsLater early late) (later early late rows)
unfolding later
later-All early late [] = tt
later-All early late (a ∷ rows) =
    elim (Bool-cases (is_expired late a && not (is_expired early a))) [
      | inl e ↦ rw e ((ground (arith, e), ground (arith, e)), later-All early late rows)
      | inr e ↦ rw e (later-All early late rows)
    ]

insert-older :
    (a : Reservation) (xs ys : List Reservation)
    → All (λ b. expires_first a b ≡ true) ys
    → insert_by_expiry a (xs ++ ys) ≡ insert_by_expiry a xs ++ ys
unfolding insert_by_expiry
insert-older a [] [] h = refl
insert-older a [] (b ∷ ys) h = rw h.0 refl
insert-older a (x ∷ xs) ys h = elim (Bool-cases (expires_first a x)) [
  | inl e ↦ rw e refl
  | inr e ↦ rw e (ap (λ zs. x ∷ zs) (insert-older a xs ys h))
]

insert-newer :
    (a : Reservation) (xs ys : List Reservation)
    → All (λ b. expires_first a b ≡ false) xs
    → insert_by_expiry a (xs ++ ys) ≡ xs ++ insert_by_expiry a ys
unfolding insert_by_expiry
insert-newer a [] ys h = refl
insert-newer a (x ∷ xs) ys h = rw h.0 (ap (λ zs. x ∷ zs) (insert-newer a xs ys h.1))

module _ (early late : ℤ) (not_after : early ≤ℤ late) where
  -- The selection begins with the holds that were past the earlier cutoff.
  pub order-split :
      (rows : List Reservation)
      → order_by_expiry (expired_rows late nobody rows)
        ≡ order_by_expiry (expired_rows early nobody rows)
          ++ order_by_expiry (later early late rows)
  unfolding order_by_expiry expired_rows later
  order-split [] = refl
  order-split (a ∷ rows) = elim (Bool-cases (is_expired early a)) [
    | inl e ↦
        rw (e, expired_sooner early late a not_after e, order-split rows)
          (insert-older a (order_by_expiry (expired_rows early nobody rows)) _ (
            All-order _ _ (
              All-map (IsLater early late) _ _ (λ b l. (older_first early late a b e l.0 l.1).0)
                (later-All early late rows))))
    | inr n ↦ elim (Bool-cases (is_expired late a)) [
      | inl l ↦
          rw (n, l, order-split rows)
            (insert-newer a (order_by_expiry (expired_rows early nobody rows)) _ (
              All-order _ _ (
                All-map _ _ _ (λ b e. (older_first early late b a e l n).1)
                  (expired_rows-All early rows))))
      | inr m ↦ rw (n, m) (order-split rows)
    ]
  ]
