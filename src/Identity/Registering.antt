-- ===== src/Identity/Registering.antt =====
-- What comes of a registration: `Register` and `Login` of internal/domain/identity/auth_service.go
-- one after the other, behind the public routes of internal/adapter/http/v1/auth_handler.go.
use text.Mathlib.Text.{◌==◌ as str_eq}
use text.Mathlib.TextEquality.{eq_iff}
use Prim.Native.String.{len}
use doki_core_backend.Prelude.{
  ℕ, ◌≡◌, refl, ap, true, false, ◌||◌, not, String, List, [], ◌∷◌, ◌++◌, Option, none, some, arith,
  inl, inr, Bool-cases, if◌then◌else◌, ltb, ◌==◌,
}
use doki_core_backend.Errors.{Err, Result, ok, err}
use doki_core_backend.Identity.{
  User, Users, query_under, later, query, row_of, scan_user, find_user, get_user, get_by_phone,
  user_clashes, insert_under, user_fits, user_kept, create_user, assigned_to, assignments_read,
  arrived_ids, get_user_property_assignments,
}
use doki_core_backend.Identity.Text.{trim_space, contains_at}
use doki_core_backend.Identity.Service.{
  Crypto, RegisterRequest, new_user, role_or_customer, issued, with_assignments, checked,
  find_login, login_trimmed, login, stored, hashed, register_error, register_valid, register_user,
}
use doki_core_backend.Identity.Api.{register_status, handle_register}

-- A row that clashes with no other is the one that its phone number finds.
find_user-last :
    (u : User) (rows : List User)
    → user_clashes u rows ≡ false
    → find_user (λ v. str_eq v.phone_number u.phone_number) (rows ++ u ∷ []) ≡ some u
unfolding find_user user_clashes
find_user-last u [] h = rw ((eq_iff u.phone_number u.phone_number).1 refl) refl
find_user-last u (v ∷ rows) h =
    let other : str_eq v.phone_number u.phone_number ≡ false = ground (arith, h) in
    rw other (find_user-last u rows (ground (arith, h)))

not_blank : (password : String) → ltb (len password) 8 ≡ false → str_eq password "" ≡ false
not_blank password h = elim (Bool-cases (str_eq password "")) [
  | inl blank ↦ absurd (ground (arith, h, ap (λ s. len s) ((eq_iff password "").0 blank)))
  | inr full ↦ full
]

-- The row that a registration stores, as its columns keep it.
abbrev registered : ℕ → RegisterRequest → String → User
registered uuid req hash =
    user_kept (record (new_user uuid req hash) { id = if uuid == 0 then uuid else uuid })

-- A login by a phone number and a password that fit one row.
login-issued :
    (crypto : Crypto) (issue : User → List ℕ → Result String) (phone password : String) (u : User)
    (rows : List User) (pairs : List (ℕ × ℕ))
    → crypto.issuer ≡ some issue
    → str_eq (trim_space phone) "" ≡ false
    → str_eq password "" ≡ false
    → contains_at (trim_space phone) ≡ false
    → find_user (λ v. str_eq v.phone_number (trim_space phone)) rows ≡ some u
    → u.is_active ≡ true
    → crypto.verifies u.password_hash password ≡ true
    → (login crypto none phone password
        (record { rows = rows; assignments = pairs; arrives = 0; faults = [] })).0
      ≡ issued u (some (issue u (assigned_to u.id pairs)))
unfolding login login_trimmed find_login get_by_phone get_user query query_under later row_of
    scan_user checked get_user_property_assignments assignments_read arrived_ids with_assignments
login-issued crypto issue phone password u rows pairs i p q a f b v =
    let good : (not u.is_active || not (crypto.verifies u.password_hash password)) ≡ false =
      ground (arith, b, v) in
    rw (p, q, a, f, good, i) refl

abbrev pub quiet : List User → List (ℕ × ℕ) → Users
quiet rows pairs = record { rows = rows; assignments = pairs; arrives = 0; faults = [] }

-- A registration that succeeds has added its row.
abbrev Registers :
    Crypto → ℕ → RegisterRequest → List User → List (ℕ × ℕ) → Result User × Users → Type 0
Registers crypto uuid req rows pairs (err e, db) = Unit
Registers crypto uuid req rows pairs (ok u, db) =
    (hash : String) × (crypto.hash_of req.password ≡ ok hash)
    × (register_error req ≡ none)
    × (user_clashes (registered uuid req hash) rows ≡ false)
    × (db ≡ quiet (rows ++ registered uuid req hash ∷ []) pairs)

hashed-Registers :
    (crypto : Crypto) (uuid : ℕ) (req : RegisterRequest) (rows : List User) (pairs : List (ℕ × ℕ))
    (reply : Result String)
    → register_error req ≡ none
    → crypto.hash_of req.password ≡ reply
    → Registers crypto uuid req rows pairs (hashed uuid req reply (quiet rows pairs))
unfolding hashed stored create_user insert_under later
hashed-Registers crypto uuid req rows pairs (err e) valid h = tt
hashed-Registers crypto uuid req rows pairs (ok hash) valid h =
    elim (Bool-cases (user_fits (new_user uuid req hash))) [
      | inr bad ↦ rw bad tt
      | inl fits ↦ elim (Bool-cases (user_clashes (registered uuid req hash) rows)) [
        | inl clash ↦ rw (fits, clash) tt
        | inr free ↦ rw (fits, free) (hash, h, valid, free, refl)
      ]
    ]

valid-Registers :
    (crypto : Crypto) (uuid : ℕ) (req : RegisterRequest) (rows : List User) (pairs : List (ℕ × ℕ))
    (e : Option Err)
    → register_error req ≡ e
    → Registers crypto uuid req rows pairs (register_valid crypto uuid req e (quiet rows pairs))
unfolding register_valid
valid-Registers crypto uuid req rows pairs (some e) h = tt
valid-Registers crypto uuid req rows pairs none h =
    hashed-Registers crypto uuid req rows pairs (crypto.hash_of req.password) h refl

-- The validation has passed a phone number and a password that are not blank.
register_error-none :
    (req : RegisterRequest)
    → register_error req ≡ none
    → (str_eq (trim_space req.phone_number) "" ≡ false) × (ltb (len req.password) 8 ≡ false)
unfolding register_error
register_error-none req h = (ground (arith, h), ground (arith, h))

-- A row that has been registered may log in.
Registers-login :
    (crypto : Crypto) (issue : User → List ℕ → Result String) (uuid : ℕ) (req : RegisterRequest)
    (rows : List User) (pairs : List (ℕ × ℕ)) (out : Result User × Users)
    → crypto.issuer ≡ some issue
    → ((hash : String)
        → crypto.hash_of req.password ≡ ok hash
        → crypto.verifies hash req.password ≡ true)
    → contains_at (trim_space req.phone_number) ≡ false
    → register_status out.0 ≡ 201
    → Registers crypto uuid req rows pairs out
    → (user : User) × (user.role ≡ role_or_customer req.role)
      × ((login crypto none req.phone_number req.password out.1).0
          ≡ issued user (some (issue user (assigned_to user.id pairs))))
unfolding register_status
Registers-login crypto issue uuid req rows pairs (err e, db) i v a s h = absurd (ground (arith, s))
Registers-login crypto issue uuid req rows pairs (ok u, db) i v a s (hash, made, valid, free, e) =
    let user = registered uuid req hash in
    let (p, q) = register_error-none req valid in
    (
      user,
      refl,
      rw e (
          login-issued crypto issue req.phone_number req.password user (rows ++ user ∷ []) pairs i p
            (not_blank req.password q) a (find_user-last user rows free) refl (v hash made)),
    )

-- With a database that answers, hashes that fit the passwords they are made of, and a phone number
-- without an at sign: whoever has registered may log in with that number and password at once, as a
-- user with the role that the request asked for (a customer where it asked for none), and gets what
-- the issuer makes of that user and the properties assigned to them.
pub register-login :
    (crypto : Crypto) (issue : User → List ℕ → Result String) (uuid : ℕ) (req : RegisterRequest)
    (rows : List User) (pairs : List (ℕ × ℕ))
    → crypto.issuer ≡ some issue
    → ((hash : String)
        → crypto.hash_of req.password ≡ ok hash
        → crypto.verifies hash req.password ≡ true)
    → contains_at (trim_space req.phone_number) ≡ false
    → (handle_register crypto none uuid (some req) (quiet rows pairs)).0 ≡ 201
    → (user : User) × (user.role ≡ role_or_customer req.role)
      × ((login crypto none req.phone_number req.password
            (handle_register crypto none uuid (some req) (quiet rows pairs)).1).0
          ≡ issued user (some (issue user (assigned_to user.id pairs))))
unfolding handle_register register_user
register-login crypto issue uuid req rows pairs i v a s =
    Registers-login crypto issue uuid req rows pairs _ i v a s
      (valid-Registers crypto uuid req rows pairs (register_error req) refl)
