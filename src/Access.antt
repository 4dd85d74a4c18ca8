-- ===== src/Access.antt =====
-- internal/domain/identity/user.go and internal/adapter/http/middleware/rbac.go: roles, and the
-- middleware that guards the admin routes of internal/adapter/http/router.go.
pub mod Routes
pub mod Guards
pub mod Tests
use text.Mathlib.Text.{◌==◌ as str_eq}
use doki_core_backend.Prelude.{
  ℕ, Bool, true, false, not, ◌&&◌, ◌||◌, String, List, [], ◌∷◌, Option, none, some, ◌==◌,
  if◌then◌else◌,
}

-- A role is a string; one that is none of the seven constants is `other_role`.
pub data Role : Type 0 where
  hq_admin regional_supervisor hotel_owner hotel_manager receptionist customer corporate : Role
  other_role : String → Role

abbrev pub role_eq : Role → Role → Bool
role_eq hq_admin hq_admin = true
role_eq regional_supervisor regional_supervisor = true
role_eq hotel_owner hotel_owner = true
role_eq hotel_manager hotel_manager = true
role_eq receptionist receptionist = true
role_eq customer customer = true
role_eq corporate corporate = true
role_eq (other_role a) (other_role b) = str_eq a b
role_eq _ _ = false

-- `Role.IsStaff`.
unfoldable pub is_staff : Role → Bool
is_staff hq_admin = true
is_staff regional_supervisor = true
is_staff hotel_owner = true
is_staff hotel_manager = true
is_staff receptionist = true
is_staff _ = false

-- `AuthenticatedUser`; the map of assignments is the list of its keys.
pub record AuthenticatedUser : Type 0 where
  pub id : ℕ
  pub role : Role
  pub region : Option String
  pub property_assignment : List ℕ

-- What a request carries: the user of its context, and its parameters by name, in the path and in
-- the query; a missing one is "".
pub record Request : Type 0 where
  pub user : Option AuthenticatedUser
  pub url_param : String → String
  pub query : String → String

-- A middleware lets the request through to the next handler, or answers with a status.
pub data Verdict : Type 0 where
  next : Verdict
  respond : ℕ → Verdict

abbrev pub has_role : List Role → Role → Bool
has_role [] role = false
has_role (r ∷ roles) role = role_eq r role || has_role roles role

abbrev pub assigned : List ℕ → ℕ → Bool
assigned [] property = false
assigned (p ∷ ps) property = p == property || assigned ps property

-- `RequireRoles`.
unfoldable pub require_roles : List Role → Request → Verdict
require_roles allowed req = elim req.user [
  | none ↦ respond 401
  | some user ↦
      if role_eq user.role hq_admin
      then next
      else (if has_role allowed user.role then next else respond 403)
]

-- The path parameter, or the query parameter where it is empty.
abbrev pub parameter : Request → String → String
parameter req name =
    let in_path = req.url_param name in if str_eq in_path "" then req.query name else in_path

abbrev pub name_or : String → String → String
name_or name default = if str_eq name "" then default else name

-- `uuid.Parse` is a function of the uuid package, and stands here as a parameter.
module _ (parse : String → Option ℕ) where
  -- The test of `RequirePropertyScope` from the parsed id on.
  scope_of : AuthenticatedUser → ℕ → Verdict
  scope_of user property =
      if role_eq user.role regional_supervisor
      then next
      else (if assigned user.property_assignment property then next else respond 403)

  scoped : AuthenticatedUser → String → Verdict
  unfolding scope_of
  scoped user text =
      if str_eq text ""
      then respond 400
      else (elim (parse text) [ none ↦ respond 400 | some property ↦ scope_of user property ])

  -- `RequirePropertyScope`.
  unfoldable pub require_property_scope : String → Request → Verdict
  unfolding scoped
  require_property_scope param req = elim req.user [
    | none ↦ respond 401
    | some user ↦
        if role_eq user.role hq_admin
        then next
        else scoped user (parameter req (name_or param "property_id"))
  ]

outside_region : AuthenticatedUser → String → Bool
outside_region user target =
    not (str_eq target "")
    && (elim user.region [ none ↦ true | some region ↦ not (str_eq region target) ])

-- `RequireRegionalScope`.
unfoldable pub require_regional_scope : String → Request → Verdict
unfolding outside_region
require_regional_scope param req = elim req.user [
  | none ↦ respond 401
  | some user ↦
      if role_eq user.role hq_admin
      then next
      else (if role_eq user.role regional_supervisor
          then (if outside_region user (parameter req (name_or param "region"))
              then respond 403
              else next)
          else next)
]
