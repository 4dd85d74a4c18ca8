-- ===== src/Access/Routes.antt =====
-- The admin routes of internal/adapter/http/router.go with their guards, in the order in which chi
-- runs them. `AuthMiddleware` has set the user before.
use doki_core_backend.Prelude.{ℕ, List, [], ◌∷◌, Option, String}
use doki_core_backend.Access.{
  Role, hq_admin, regional_supervisor, hotel_owner, hotel_manager, receptionist, Request, Verdict,
  next, respond, require_roles, require_property_scope,
}

pub data Route : Type 0 where
  create_property get_property update_property create_room_type create_room : Route

-- The roles that `RequireRoles` is given.
unfoldable pub allowed_roles : Route → List Role
allowed_roles create_property = hq_admin ∷ hotel_owner ∷ []
allowed_roles get_property =
    hq_admin ∷ regional_supervisor ∷ hotel_owner ∷ hotel_manager ∷ receptionist ∷ []
allowed_roles update_property = hq_admin ∷ hotel_owner ∷ []
allowed_roles create_room_type = hq_admin ∷ hotel_owner ∷ hotel_manager ∷ []
allowed_roles create_room = hq_admin ∷ hotel_owner ∷ hotel_manager ∷ []

-- Middleware run one after the other, up to the first that answers.
abbrev pub and_then : Verdict → Verdict → Verdict
and_then next v = v
and_then (respond status) v = respond status

-- The guards in front of a route's handler.
unfoldable pub guards : (String → Option ℕ) → Route → Request → Verdict
unfolding allowed_roles
guards parse create_property req = require_roles (allowed_roles create_property) req
guards parse get_property req =
    and_then (require_property_scope parse "property_id" req)
      (require_roles (allowed_roles get_property) req)
guards parse update_property req =
    and_then (require_property_scope parse "property_id" req)
      (require_roles (allowed_roles update_property) req)
guards parse create_room_type req =
    and_then (require_property_scope parse "property_id" req)
      (require_roles (allowed_roles create_room_type) req)
guards parse create_room req =
    and_then (require_property_scope parse "property_id" req)
      (require_roles (allowed_roles create_room) req)
