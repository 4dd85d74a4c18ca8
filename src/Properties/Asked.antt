-- ===== src/Properties/Asked.antt =====
-- What `UpdateProperty` of internal/domain/property/service.go asks of a row, and what a write of one
-- row does to the table.
use mathlib.Core.Path.{subst}
use text.Mathlib.Text.{◌==◌ as str_eq}
use text.Mathlib.TextEquality.{eq_iff}
use doki_core_backend.Prelude.Int.{ℤ}
use doki_core_backend.Identity.Text.{trim_space}
use doki_core_backend.Prelude.{
  ℕ, ◌≡◌, ◌≢◌, refl, sym, ◌∙◌, ap, ◌⊎◌, inl, inr, true, false, String, List, [], ◌∷◌, Option, none,
  some, ◌==◌, arith, Bool-cases, if◌then◌else◌,
}
use doki_core_backend.Errors.{ok}
use doki_core_backend.Properties.{Property, Db, degrees, property_key}
use doki_core_backend.Properties.Keys.{All, Distinct}
use doki_core_backend.Properties.Repo.{set_profile, profile_of, placed, select_rows, first}
use doki_core_backend.Properties.Service.{merged, newer_at}

-- A text of the row under that of the request, where it has one.
abbrev pub TextAsked : String → String → String → String → Type 0
TextAsked asked new old result = (asked ≡ "") × (result ≡ old) ⊎ (asked ≢ "") × (result ≡ new)

abbrev pub Placed : Option ℤ → Option ℤ → Option ℤ → Type 0
Placed none old result = result ≡ old
Placed (some x) old result = result ≡ some x

-- The row `m` is `row` with the values that the request `p` has for it, and else as it was.
abbrev pub Requested : Property → Property → Property → Type 0
Requested p row m =
    TextAsked p.name (trim_space p.name) row.name m.name
    × TextAsked p.category p.category row.category m.category
    × TextAsked p.status p.status row.status m.status
    × TextAsked p.city (trim_space p.city) row.city m.city
    × TextAsked p.region (trim_space p.region) row.region m.region
    × Placed p.latitude row.latitude m.latitude
    × Placed p.longitude row.longitude m.longitude
    × (m ≡ record row {
      name = m.name;
      category = m.category;
      status = m.status;
      city = m.city;
      region = m.region;
      latitude = m.latitude;
      longitude = m.longitude;
    })

if-TextAsked :
    (asked new old : String) → TextAsked asked new old (if str_eq asked "" then old else new)
if-TextAsked asked new old = elim (Bool-cases (str_eq asked "")) [
  | inl blank ↦ rw blank (inl ((eq_iff asked "").0 blank, refl))
  | inr full ↦ rw full (inr (λ e. cc (sym full ∙ (eq_iff asked "").1 e), refl))
]

newer_at-Placed : (asked old : Option ℤ) → Placed asked old (newer_at asked old)
newer_at-Placed none old = refl
newer_at-Placed (some x) old = refl

pub merged-Requested : (p row : Property) → Requested p row (merged p row)
merged-Requested p row = (
  if-TextAsked p.name (trim_space p.name) row.name,
  if-TextAsked p.category p.category row.category,
  if-TextAsked p.status p.status row.status,
  if-TextAsked p.city (trim_space p.city) row.city,
  if-TextAsked p.region (trim_space p.region) row.region,
  newer_at-Placed p.latitude row.latitude,
  newer_at-Placed p.longitude row.longitude,
  refl,
)

-- `kept` is the row `m` with its coordinates as the columns keep them.
abbrev pub Keeps : Db → Property → Property → Type 0
Keeps db m kept =
    (degrees db 10 m.latitude ≡ some kept.latitude)
    × (degrees db 11 m.longitude ≡ some kept.longitude)
    × (kept ≡ record m { latitude = kept.latitude; longitude = kept.longitude })

kept_same : {p q : Property} → some p ≡ some q → p ≡ q
kept_same h = cc

pub placed-Keeps :
    (m kept : Property) (la lo : Option (Option ℤ))
    → placed m la lo ≡ some kept
    → (la ≡ some kept.latitude)
      × (lo ≡ some kept.longitude)
      × (kept ≡ record m { latitude = kept.latitude; longitude = kept.longitude })
unfolding placed
placed-Keeps m kept (some la) (some lo) h =
    subst
      (λ (r : Property).
        (some la ≡ some r.latitude)
        × (some lo ≡ some r.longitude)
        × (r ≡ record m { latitude = r.latitude; longitude = r.longitude }))
      (kept_same h) (refl, refl, refl)
placed-Keeps m kept none lo h = cc
placed-Keeps m kept (some la) none h = cc

-- The row of the id has become `kept`, and all others stay.
abbrev pub Replaced : ℕ → Property → List Property → List Property → Type 0
Replaced id kept [] [] = Unit
Replaced id kept [] (b ∷ ys) = ⊥
Replaced id kept (a ∷ xs) [] = ⊥
Replaced id kept (a ∷ xs) (b ∷ ys) =
    ((a.id ≡ id) × (b ≡ kept) ⊎ (a.id ≢ id) × (b ≡ a)) × Replaced id kept xs ys

module _ (p : Property) where
  -- Rows that share no key with a row of the id.
  others-Replaced :
      (kept q row : Property) (rows : List Property)
      → row.id ≡ p.id
      → q.id ≡ p.id
      → All (λ r. property_key row r ≡ false) rows
      → Replaced p.id kept rows (set_profile q rows)
  unfolding set_profile property_key
  others-Replaced kept q row [] hit same h = tt
  others-Replaced kept q row (r ∷ rows) hit same h =
      let miss : (r.id == q.id) ≡ false = ground (arith, hit, same, h.0) in
      rw miss (
        inr (λ e. absurd (ground (arith, e, same, miss)), refl),
        others-Replaced kept q row rows hit same h.1,
      )

  -- Of rows with distinct keys, the one that a look-up by the id finds is written.
  pub set_profile-Replaced :
      (found q kept : Property) (rows : List Property)
      → Distinct property_key rows
      → first (select_rows (λ r. r.id == p.id) rows) ≡ ok found
      → q.id ≡ p.id
      → profile_of q found ≡ kept
      → Replaced p.id kept rows (set_profile q rows)
  unfolding first select_rows set_profile
  set_profile-Replaced found q kept [] h e same w = tt
  set_profile-Replaced found q kept (row ∷ rows) h e same w = elim (Bool-cases (row.id == p.id)) [
    | inl hit ↦
        let here : row ≡ found = cc (rw hit at e) in
        let own : row.id ≡ p.id = ground (arith, hit) in
        let test : (row.id == q.id) ≡ true = ground (arith, own, same) in
        rw test
          (inl (own, ap (profile_of q) here ∙ w), others-Replaced kept q row rows own same h.0)
    | inr miss ↦
        let test : (row.id == q.id) ≡ false = ground (arith, miss, same) in
        rw test (
          inr (λ own. absurd (ground (arith, own, miss)), refl),
          set_profile-Replaced found q kept rows h.1 (rw miss at e) same w,
        )
  ]

  pub first-id :
      (found : Property) (rows : List Property)
      → first (select_rows (λ r. r.id == p.id) rows) ≡ ok found
      → found.id ≡ p.id
  unfolding first select_rows
  first-id found [] e = cc
  first-id found (row ∷ rows) e = elim (Bool-cases (row.id == p.id)) [
    | inl hit ↦
        let here : row ≡ found = cc (rw hit at e) in
        subst (λ (q : Property). q.id ≡ p.id) here (ground (arith, hit))
    | inr miss ↦ first-id found rows (rw miss at e)
  ]
