-- ===== src/Access/Tests.antt =====
-- The guards of internal/adapter/http/middleware/rbac.go at concrete inputs.
use text.Mathlib.Text.{◌==◌ as str_eq}
use doki_core_backend.Prelude.{
  ℕ, ◌≡◌, refl, ◌↔◌, List, [], ◌∷◌, Option, some, none, String, if◌then◌else◌,
}
use doki_core_backend.Access.{
  Role, hotel_manager, regional_supervisor, Request, AuthenticatedUser, next,
}
use doki_core_backend.Access.Routes.{guards, create_room, get_property}
use doki_core_backend.Access.Guards.{
  MayManage, MayRead, create_room-MayManage, get_property-MayRead,
}

-- A parser that knows one text.
abbrev parse : String → Option ℕ
parse text = if str_eq text "p5" then some 5 else none

abbrev user_of : Role → List ℕ → AuthenticatedUser
user_of role properties = record {
  id = 1;
  role = role;
  region = some "Addis Ababa";
  property_assignment = properties;
}

abbrev request_of : AuthenticatedUser → Request
request_of user = record {
  user = some user;
  url_param = λ name. if str_eq name "property_id" then "p5" else "";
  query = λ name. "";
}

abbrev manager : AuthenticatedUser
manager = user_of hotel_manager (4 ∷ 5 ∷ [])

abbrev supervisor : AuthenticatedUser
supervisor = user_of regional_supervisor []

create_room-MayManage_example :
    (guards parse create_room (request_of manager) ≡ next) ↔ MayManage manager 5
create_room-MayManage_example =
    create_room-MayManage parse (request_of manager) manager 5 refl refl refl

get_property-MayRead_example :
    (guards parse get_property (request_of supervisor) ≡ next) ↔ MayRead supervisor 5
get_property-MayRead_example =
    get_property-MayRead parse (request_of supervisor) supervisor 5 refl refl refl
