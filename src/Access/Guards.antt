-- ===== src/Access/Guards.antt =====
-- Who passes the guards of internal/adapter/http/middleware/rbac.go and of the admin routes.
use text.Mathlib.Text.{◌==◌ as str_eq}
use doki_core_backend.Prelude.{ℕ, ◌≡◌, ◌↔◌, ◌⊎◌, true, false, String, Option, some, arith}
use doki_core_backend.Access.{
  hq_admin, regional_supervisor, hotel_owner, hotel_manager, AuthenticatedUser, Request, next,
  role_eq, is_staff, assigned, parameter, scoped, scope_of, require_roles, require_property_scope,
}
use doki_core_backend.Access.Routes.{get_property, create_room, guards, allowed_roles}

-- Who may change a property: its administrator at headquarters, or an owner or manager to whom it
-- is assigned.
abbrev pub MayManage : AuthenticatedUser → ℕ → Type 0
MayManage user property =
    (role_eq user.role hq_admin ≡ true)
    ⊎ (assigned user.property_assignment property ≡ true)
      × ((role_eq user.role hotel_owner ≡ true) ⊎ (role_eq user.role hotel_manager ≡ true))

-- Who may read a property: headquarters, any regional supervisor, and staff to whom it is assigned.
abbrev pub MayRead : AuthenticatedUser → ℕ → Type 0
MayRead user property =
    ((role_eq user.role hq_admin ≡ true) ⊎ (role_eq user.role regional_supervisor ≡ true))
    ⊎ (assigned user.property_assignment property ≡ true) × (is_staff user.role ≡ true)

-- A request to create a room, whose path names a property by a text that parses, reaches the
-- handler exactly if its user is of headquarters, or is an owner or manager assigned to that
-- property.
pub create_room-MayManage :
    (parse : String → Option ℕ) (req : Request) (user : AuthenticatedUser) (property : ℕ)
    → req.user ≡ some user
    → parse (parameter req "property_id") ≡ some property
    → str_eq (parameter req "property_id") "" ≡ false
    → (guards parse create_room req ≡ next) ↔ MayManage user property
unfolding guards require_property_scope require_roles scoped scope_of allowed_roles
create_room-MayManage parse req user property e f n =
    (ground (arith, e, f, n), ground (arith, e, f, n))

-- A request to read a property, whose path names it by a text that parses, reaches the handler
-- exactly if its user is of headquarters, is a regional supervisor of any region, or is staff
-- assigned to that property.
pub get_property-MayRead :
    (parse : String → Option ℕ) (req : Request) (user : AuthenticatedUser) (property : ℕ)
    → req.user ≡ some user
    → parse (parameter req "property_id") ≡ some property
    → str_eq (parameter req "property_id") "" ≡ false
    → (guards parse get_property req ≡ next) ↔ MayRead user property
unfolding guards require_property_scope require_roles scoped scope_of allowed_roles is_staff
get_property-MayRead parse req user property e f n =
    (ground (arith, e, f, n), ground (arith, e, f, n))
