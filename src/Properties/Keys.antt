-- ===== src/Properties/Keys.antt =====
-- Lists without a repeated key, and what an INSERT or an UPDATE of the profile
-- (internal/adapter/repository/postgres/property_repo.go) does to them.
use mathlib.Core.Path.{subst}
use doki_core_backend.Prelude.{
  ◌≡◌, refl, sym, ◌∙◌, ◌⊎◌, inl, inr, Bool, true, false, List, [], ◌∷◌, ◌++◌, ◌==◌, arith,
  Bool-cases,
}
use doki_core_backend.Errors.{ok}
use doki_core_backend.Properties.{Property, any}
use doki_core_backend.Properties.Repo.{first, profile_of, select_rows, set_profile}

module _ {A : Type 0} where
  abbrev pub All : (A → Type 0) → List A → Type 0
  All P [] = Unit
  All P (x ∷ xs) = P x × All P xs

  -- No row has a key in common with an earlier one.
  abbrev pub Distinct : (A → A → Bool) → List A → Type 0
  Distinct key [] = Unit
  Distinct key (x ∷ xs) = All (λ y. key x y ≡ false) xs × Distinct key xs

  abbrev pub Listed : A → List A → Type 0
  Listed x [] = ⊥
  Listed x (y ∷ ys) = (x ≡ y) ⊎ Listed x ys

  pub first-Listed :
      (fits : A → Bool) (xs : List A) (x : A) → first (select_rows fits xs) ≡ ok x → Listed x xs
  unfolding first select_rows
  first-Listed fits [] x h = cc
  first-Listed fits (y ∷ ys) x h = elim (Bool-cases (fits y)) [
    | inl hit ↦ inl (cc (rw hit at h))
    | inr miss ↦ inr (first-Listed fits ys x (rw miss at h))
  ]

  pub All-Listed : (P : A → Type 0) (xs : List A) (x : A) → All P xs → Listed x xs → P x
  All-Listed P [] x h l = elim l [ ]
  All-Listed P (y ∷ ys) x h (inl e) = subst P (sym e) h.0
  All-Listed P (y ∷ ys) x h (inr l) = All-Listed P ys x h.1 l

  pub All-snoc : (P : A → Type 0) (xs : List A) (y : A) → All P xs → P y → All P (xs ++ y ∷ [])
  All-snoc P [] y h k = (k, tt)
  All-snoc P (x ∷ xs) y h k = (h.0, All-snoc P xs y h.1 k)

  pub All-imp : (P Q : A → Type 0) (xs : List A) → ((x : A) → P x → Q x) → All P xs → All Q xs
  All-imp P Q [] f h = tt
  All-imp P Q (x ∷ xs) f h = (f x h.0, All-imp P Q xs f h.1)

  pub Distinct-snoc :
      (key : A → A → Bool) (xs : List A) (y : A)
      → Distinct key xs
      → any (λ x. key x y) xs ≡ false
      → Distinct key (xs ++ y ∷ [])
  unfolding any
  Distinct-snoc key [] y h k = (tt, tt)
  Distinct-snoc key (x ∷ xs) y h k = (
    All-snoc (λ z. key x z ≡ false) xs y h.0 (ground (arith, k)),
    Distinct-snoc key xs y h.1 (ground (arith, k)),
  )

  pub any-snoc :
      (fits : A → Bool) (xs : List A) (y : A) → any fits xs ≡ true → any fits (xs ++ y ∷ []) ≡ true
  unfolding any
  any-snoc fits [] y h = cc
  any-snoc fits (x ∷ xs) y h = ground (arith, h, any-snoc fits xs y)

-- The rows that an update of a profile leaves, for what does not read the profile.
module _ (p : Property) where
  pub any-set_profile :
      (fits : Property → Bool) (rows : List Property)
      → ((row : Property) → fits (profile_of p row) ≡ fits row)
      → any fits (set_profile p rows) ≡ any fits rows
  unfolding any set_profile
  any-set_profile fits [] same = refl
  any-set_profile fits (row ∷ rows) same = ground (arith, same row, any-set_profile fits rows same)

  pub All-set_profile :
      (P : Property → Type 0) (rows : List Property)
      → ((row : Property) → P row → P (profile_of p row))
      → All P rows
      → All P (set_profile p rows)
  unfolding set_profile
  All-set_profile P [] keep h = tt
  All-set_profile P (row ∷ rows) keep h = elim (Bool-cases (row.id == p.id)) [
    | inl hit ↦ simp hit ((keep row h.0, All-set_profile P rows keep h.1))
    | inr miss ↦ simp miss ((h.0, All-set_profile P rows keep h.1))
  ]

  pub Distinct-set_profile :
      (key : Property → Property → Bool) (rows : List Property)
      → ((row q : Property) → key (profile_of p row) q ≡ key row q)
      → ((q row : Property) → key q (profile_of p row) ≡ key q row)
      → Distinct key rows
      → Distinct key (set_profile p rows)
  unfolding set_profile
  Distinct-set_profile key [] left right h = tt
  Distinct-set_profile key (row ∷ rows) left right h =
      let rest = All-set_profile (λ q. key row q ≡ false) rows (λ q e. right row q ∙ e) h.0 in
      elim (Bool-cases (row.id == p.id)) [
        | inl hit ↦ simp hit (
            (
              All-imp (λ q. key row q ≡ false) (λ q. key (profile_of p row) q ≡ false)
                  (set_profile p rows) (λ q e. left row q ∙ e) rest,
              Distinct-set_profile key rows left right h.1,
            ))
        | inr miss ↦ simp miss ((rest, Distinct-set_profile key rows left right h.1))
      ]
