-- ===== src/Identity/Login.antt =====
-- Whom `Login` of internal/domain/identity/auth_service.go gives a token, and what its handler
-- (internal/adapter/http/v1/auth_handler.go) answers.
use text.Mathlib.Text.{◌==◌ as str_eq}
use doki_core_backend.Prelude.{
  ℕ, ◌≡◌, ◌⊎◌, inl, inr, refl, sym, ◌∙◌, ap, Bool, true, false, not, ◌||◌, String, List, [], ◌∷◌,
  Option, none, some, arith, Bool-cases, Option-cases, if◌then◌else◌, ltb, take, ◌≢◌,
}
use Prim.Native.String.{len}
use doki_core_backend.Errors.{Err, Result, ok, err}
use doki_core_backend.Reservations.{Fault, no_fault, refused, lost, first_fault, later_faults}
use doki_core_backend.Identity.{
  User, Users, query_under, later, query, row_of, scan_user, find_user, get_user, get_by_phone,
  get_by_email, same_email, assigned_to, arrived_ids, assignments_read,
  get_user_property_assignments,
}
use doki_core_backend.Identity.Text.{trim_space, contains_at}
use doki_core_backend.Identity.Service.{
  Crypto, RegisterRequest, issued, with_assignments, checked, find_login, login_trimmed, login,
  register_error, register_valid, register_user,
}
use doki_core_backend.Identity.Api.{register_status, handle_register}

abbrev pub Listed : User → List User → Type 0
Listed u [] = ⊥
Listed u (v ∷ rows) = (u ≡ v) ⊎ Listed u rows

-- The account that an identifier, trimmed, names.
abbrev pub named_by : String → User → Bool
named_by identifier u =
    if contains_at identifier
    then same_email u.email (some identifier)
    else str_eq u.phone_number identifier

-- The properties that a login reads: those assigned to the user, or only the first of them where the
-- iteration over their rows, the third call of the login, has broken off.
abbrev pub Obtains : Users → User → List ℕ → Type 0
Obtains db user properties =
    (properties ≡ assigned_to user.id db.assignments)
    ⊎ (first_fault (later_faults (later_faults db.faults)) ≢ no_fault)
      × (properties ≡ take db.arrives (assigned_to user.id db.assignments))

-- A user who may log in with a password, and the token that the issuer makes of them and the
-- properties that were read.
abbrev pub MayLogin : Crypto → Users → String → String → String → User → Type 0
MayLogin crypto db identifier password token user =
    Listed user db.rows
    × (named_by (trim_space identifier) user ≡ true)
    × (user.is_active ≡ true)
    × (crypto.verifies user.password_hash password ≡ true)
    × ((properties : List ℕ) × Obtains db user properties
        × ((issue : User → List ℕ → Result String) × (crypto.issuer ≡ some issue)
            × (issue user properties ≡ ok token)))

abbrev pub Grants : Crypto → Users → String → String → Result (String × User) → Type 0
Grants crypto db identifier password (ok (token, user)) =
    MayLogin crypto db identifier password token user
Grants crypto db identifier password (err e) = Unit

pub find_user-Listed :
    (fits : User → Bool) (rows : List User) (u : User)
    → find_user fits rows ≡ some u
    → Listed u rows × (fits u ≡ true)
unfolding find_user
find_user-Listed fits [] u h = cc
find_user-Listed fits (v ∷ rows) u h = elim (Bool-cases (fits v)) [
  | inl hit ↦ let same : v ≡ u = cc (rw hit at h) in (inl (sym same), sym (ap fits same) ∙ hit)
  | inr miss ↦ let rest = find_user-Listed fits rows u (rw miss at h) in (inr rest.0, rest.1)
]

-- The outcome of a look-up.
abbrev pub Gets : (User → Bool) → Users → Result User × Users → Type 0
Gets fits db (ok u, db1) =
    (find_user fits db.rows ≡ some u) × (db1 ≡ record db { faults = later_faults db.faults })
Gets fits db (err e, db1) = Unit

scan-Gets :
    (fits : User → Bool) (db db1 : Users) (f : Fault) (found : Option User)
    → find_user fits db.rows ≡ found
    → db1 ≡ record db { faults = later_faults db.faults }
    → Gets fits db (scan_user (query_under f (row_of found)), db1)
unfolding scan_user query_under row_of
scan-Gets fits db db1 no_fault none h k = tt
scan-Gets fits db db1 no_fault (some u) h k = (h, k)
scan-Gets fits db db1 (refused e) found h k = ground arith
scan-Gets fits db db1 (lost e) found h k = ground arith

get_user-Gets : (fits : User → Bool) (db : Users) → Gets fits db (get_user fits db)
unfolding get_user query later
get_user-Gets fits db =
    scan-Gets fits db _ (first_fault db.faults) (find_user fits db.rows) refl refl

found-Gets :
    (mail : Bool) (identifier : String) (db : Users)
    → Gets
        (λ u.
          if mail then same_email u.email (some identifier) else str_eq u.phone_number identifier)
        db
        (if mail then get_by_email identifier db else get_by_phone identifier db)
unfolding get_by_email get_by_phone
found-Gets true identifier db = get_user-Gets (λ u. same_email u.email (some identifier)) db
found-Gets false identifier db = get_user-Gets (λ u. str_eq u.phone_number identifier) db

pub find_login-Gets :
    (identifier : String) (db : Users) → Gets (named_by identifier) db (find_login identifier db)
unfolding find_login
find_login-Gets identifier db = found-Gets (contains_at identifier) identifier db

-- The token that comes of a user and the properties that were read.
abbrev Issues : Crypto → Users → User → Result (String × User) → Type 0
Issues crypto db user (err e) = Unit
Issues crypto db user (ok (token, u)) =
    (u ≡ user)
    × ((properties : List ℕ) × Obtains db user properties
        × ((issue : User → List ℕ → Result String) × (crypto.issuer ≡ some issue)
            × (issue user properties ≡ ok token)))

module _ (crypto : Crypto) (db : Users) (user : User) where
  issued-Issues :
      (properties : List ℕ) (issue : User → List ℕ → Result String) (reply : Result String)
      → Obtains db user properties
      → crypto.issuer ≡ some issue
      → issue user properties ≡ reply
      → Issues crypto db user (issued user (some reply))
  unfolding issued
  issued-Issues properties issue (err e) o h k = tt
  issued-Issues properties issue (ok token) o h k = (refl, (properties, o, (issue, h, k)))

  assigned-Issues :
      (properties : List ℕ)
      → Obtains db user properties
      → Issues crypto db user (with_assignments crypto user (ok properties))
  unfolding with_assignments issued
  assigned-Issues properties o = elim (Option-cases crypto.issuer) [
    | inl absent ↦ rw absent tt
    | inr (issue, e) ↦ simp e (issued-Issues properties issue (issue user properties) o e refl)
  ]

  arrived_ids-Obtains :
      (f : Fault)
      → first_fault (later_faults (later_faults db.faults)) ≡ f
      → Obtains db user
          (arrived_ids db.arrives (assigned_to user.id db.assignments) (query_under f (ok tt)))
  unfolding arrived_ids query_under
  arrived_ids-Obtains no_fault h = inl refl
  arrived_ids-Obtains (refused e) h = inr (λ k. cc, refl)
  arrived_ids-Obtains (lost e) h = inr (λ k. cc, refl)

  read-Issues :
      (f : Fault)
      → Issues crypto db user (
          with_assignments crypto user
            (assignments_read (
              query_under f (ok (assigned_to user.id db.assignments)),
              record db { faults = later_faults (later_faults db.faults) },
            )).0)
  unfolding assignments_read query_under query
  read-Issues no_fault =
      assigned-Issues _
        (arrived_ids-Obtains (first_fault (later_faults (later_faults db.faults))) refl)
  read-Issues (refused e) = unfold with_assignments in tt
  read-Issues (lost e) = unfold with_assignments in tt

Issues-Grants :
    (crypto : Crypto) (db : Users) (identifier password : String) (user : User)
    (out : Result (String × User))
    → Listed user db.rows
    → named_by (trim_space identifier) user ≡ true
    → user.is_active ≡ true
    → crypto.verifies user.password_hash password ≡ true
    → Issues crypto db user out
    → Grants crypto db identifier password out
Issues-Grants crypto db identifier password user (err e) l n a v h = tt
Issues-Grants crypto db identifier password user (ok (token, u)) l n a v h =
    rw h.0 (l, n, a, v, h.1)

checked-Grants :
    (crypto : Crypto) (db : Users) (identifier password : String) (out : Result User × Users)
    → Gets (named_by (trim_space identifier)) db out
    → Grants crypto db identifier password (checked crypto password out.0 out.1).0
unfolding checked get_user_property_assignments query later
checked-Grants crypto db identifier password (err e, db1) h = tt
checked-Grants crypto db identifier password (ok user, db1) h =
    elim (Bool-cases (not user.is_active || not (crypto.verifies user.password_hash password))) [
      | inl bad ↦ rw bad tt
      | inr good ↦
          let found = find_user-Listed (named_by (trim_space identifier)) db.rows user h.0 in
          rw (good, h.1)
            (Issues-Grants crypto db identifier password user _ found.0 found.1
              (ground (arith, good)) (ground (arith, good))
              (read-Issues crypto db user (first_fault (later_faults db.faults))))
    ]

-- Whatever the database does, a token is given only for a user in the table whom the trimmed
-- identifier names, who is active, and whose hash the password fits; and it is the token that the
-- issuer makes of that user and the properties assigned to them, or of only the first of these where
-- the iteration over their rows has broken off.
pub login-Grants :
    (crypto : Crypto) (ctx : Option Err) (identifier password : String) (db : Users)
    → Grants crypto db identifier password (login crypto ctx identifier password db).0
unfolding login login_trimmed
login-Grants crypto (some e) identifier password db = tt
login-Grants crypto none identifier password db =
    elim (Bool-cases (str_eq (trim_space identifier) "" || str_eq password "")) [
      | inl blank ↦ rw blank tt
      | inr full ↦ rw full (
          checked-Grants crypto db identifier password (find_login (trim_space identifier) db)
            (find_login-Gets (trim_space identifier) db))
    ]

-- A registration that the service's validation refuses (no phone number, a password shorter than
-- eight bytes, or no name) makes the handler answer 500, and leaves the tables as they were.
pub invalid_registration_is_500 :
    (crypto : Crypto) (uuid : ℕ) (req : RegisterRequest) (db : Users)
    → (str_eq (trim_space req.phone_number) "" ≡ true)
      ⊎ (ltb (len req.password) 8 ≡ true)
      ⊎ (str_eq req.full_name "" ≡ true)
    → handle_register crypto none uuid (some req) db ≡ (500, db)
unfolding handle_register register_status register_user register_valid register_error
invalid_registration_is_500 crypto uuid req db h = ground (arith, h)
