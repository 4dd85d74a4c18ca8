-- ===== src/Properties/Api.antt =====
-- internal/adapter/http/v1/admin_property_handler.go: the status and the body of each answer. A
-- request's body that is no JSON is `none`; `uuid.Parse` is a parameter.
use Prim.Native.Char.{Char}
use text.Mathlib.Text.{◌==◌ as str_eq}
use doki_core_backend.Prelude.{ℕ, true, String, Option, none, some, if◌then◌else◌}
use doki_core_backend.Prelude.Int.{ℤ}
use doki_core_backend.Errors.{
  Err, Result, ok, err, errors_is, conflict, invalid_parameters, not_found,
}
use doki_core_backend.Properties.{Property, RoomType, PhysicalRoom}
use doki_core_backend.Properties.Service.{World}
use doki_core_backend.Properties.Service

-- `dto.CreatePropertyRequest`, `dto.UpdatePropertyRequest`, `dto.CreateRoomTypeRequest` and
-- `dto.CreateRoomRequest`.
pub record CreatePropertyRequest : Type 0 where
  pub code : String
  pub name : String
  pub category : String
  pub city : String
  pub region : String
  pub latitude : Option ℤ
  pub longitude : Option ℤ
  pub base_currency : String
  pub owner_user_id : Option String

pub record UpdatePropertyRequest : Type 0 where
  pub name : String
  pub category : String
  pub status : String
  pub city : String
  pub region : String
  pub latitude : Option ℤ
  pub longitude : Option ℤ

pub record CreateRoomTypeRequest : Type 0 where
  pub code : String
  pub name : String
  pub capacity : ℤ
  pub base_rate_minor : ℤ
  pub total_inventory : ℤ

pub record CreateRoomRequest : Type 0 where
  pub room_type_id : String
  pub room_number : String
  pub floor : Option String

-- `dto.PropertyResponse`, without the times of the row and with ids as numbers.
pub record PropertyResponse : Type 0 where
  pub id : ℕ
  pub code : String
  pub name : String
  pub category : String
  pub status : String
  pub city : String
  pub region : String
  pub latitude : Option ℤ
  pub longitude : Option ℤ
  pub base_currency : String
  pub owner_user_id : Option ℕ

-- `toPropertyResponse`.
abbrev pub to_property_response : Property → PropertyResponse
to_property_response p = record {
  id = p.id;
  code = p.code;
  name = p.name;
  category = p.category;
  status = p.status;
  city = p.city;
  region = p.region;
  latitude = p.latitude;
  longitude = p.longitude;
  base_currency = p.base_currency;
  owner_user_id = p.owner_user_id;
}

-- What is written: an error's status, or a status with a body.
pub data Answer (A : Type 0) : Type 0 where
  failure : ℕ → Answer A
  success : ℕ → A → Answer A

unfoldable pub create_error : Err → ℕ
create_error e =
    if errors_is e conflict then 409 else (if errors_is e invalid_parameters then 400 else 500)

unfoldable pub find_error : Err → ℕ
find_error e = if errors_is e not_found then 404 else 500

unfoldable pub replied_with : {A B : Type 0} → (Err → ℕ) → ℕ → (A → B) → Result A → Answer B
replied_with status good body (ok v) = success good (body v)
replied_with status good body (err e) = failure (status e)

module _ (parse_uuid : String → Option ℕ) (table : Char → Char) (ctx : Option Err) (uuid : ℕ) where
  -- An owner's id that cannot be parsed is dropped.
  unfoldable pub parsed_owner : Option String → Option ℕ
  parsed_owner none = none
  parsed_owner (some text) = if str_eq text "" then none else parse_uuid text

  abbrev pub new_property : CreatePropertyRequest → Property
  new_property req = record {
    id = uuid;
    code = req.code;
    name = req.name;
    category = req.category;
    status = "DRAFT";
    region = req.region;
    city = req.city;
    latitude = req.latitude;
    longitude = req.longitude;
    base_currency = req.base_currency;
    check_in_time = "";
    check_out_time = "";
    owner_user_id = parsed_owner req.owner_user_id;
  }

  -- `AdminPropertyHandler.CreateProperty`.
  unfoldable pub handle_create_property :
      Option CreatePropertyRequest → World → Answer PropertyResponse × World
  handle_create_property none w = (failure 400, w)
  handle_create_property (some req) w =
      let (reply, w1) =
        Service.create_property table ctx uuid (new_property req) (parsed_owner req.owner_user_id)
          w in
      (replied_with create_error 201 to_property_response reply, w1)

  unfoldable pub get_parsed : Option ℕ → World → Answer PropertyResponse × World
  get_parsed none w = (failure 400, w)
  get_parsed (some id) w =
      let (reply, w1) = Service.get_property_by_id id w in
      (replied_with find_error 200 to_property_response reply, w1)

  -- `AdminPropertyHandler.GetProperty`.
  unfoldable pub handle_get_property : String → World → Answer PropertyResponse × World
  unfolding get_parsed
  handle_get_property id w = get_parsed (parse_uuid id) w

  abbrev pub property_update : ℕ → UpdatePropertyRequest → Property
  property_update id req = record {
    id = id;
    code = "";
    name = req.name;
    category = req.category;
    status = req.status;
    region = req.region;
    city = req.city;
    latitude = req.latitude;
    longitude = req.longitude;
    base_currency = "";
    check_in_time = "";
    check_out_time = "";
    owner_user_id = none;
  }

  unfoldable pub update_parsed :
      Option ℕ → Option UpdatePropertyRequest → World → Answer PropertyResponse × World
  update_parsed none body w = (failure 400, w)
  update_parsed (some id) none w = (failure 400, w)
  update_parsed (some id) (some req) w =
      let (reply, w1) = Service.update_property ctx (property_update id req) w in
      (replied_with find_error 200 to_property_response reply, w1)

  -- `AdminPropertyHandler.UpdateProperty`.
  unfoldable pub handle_update_property :
      String → Option UpdatePropertyRequest → World → Answer PropertyResponse × World
  handle_update_property id body w = update_parsed (parse_uuid id) body w

  abbrev pub new_room_type : ℕ → CreateRoomTypeRequest → RoomType
  new_room_type id req = record {
    id = uuid;
    property_id = id;
    code = req.code;
    name = req.name;
    capacity = req.capacity;
    base_rate_minor = req.base_rate_minor;
    total_inventory = req.total_inventory;
  }

  unfoldable pub room_type_parsed :
      Option ℕ → Option CreateRoomTypeRequest → World → Answer RoomType × World
  room_type_parsed none body w = (failure 400, w)
  room_type_parsed (some id) none w = (failure 400, w)
  room_type_parsed (some id) (some req) w =
      let (reply, w1) = Service.create_room_type table ctx uuid (new_room_type id req) w in
      (replied_with create_error 201 (λ rt. rt) reply, w1)

  -- `AdminPropertyHandler.CreateRoomType`; the reply has every field of the room type.
  unfoldable pub handle_create_room_type :
      String → Option CreateRoomTypeRequest → World → Answer RoomType × World
  handle_create_room_type id body w = room_type_parsed (parse_uuid id) body w

  abbrev pub new_room : ℕ → ℕ → CreateRoomRequest → PhysicalRoom
  new_room id room_type_id req = record {
    id = uuid;
    property_id = id;
    room_type_id = room_type_id;
    room_number = req.room_number;
    floor = req.floor;
    is_operational = true;
    is_clean = true;
  }

  unfoldable pub room_of_type :
      ℕ → CreateRoomRequest → Option ℕ → World → Answer PhysicalRoom × World
  room_of_type id req none w = (failure 400, w)
  room_of_type id req (some room_type_id) w =
      let (reply, w1) = Service.create_room ctx uuid (new_room id room_type_id req) w in
      (replied_with create_error 201 (λ rm. rm) reply, w1)

  unfoldable pub room_parsed :
      Option ℕ → Option CreateRoomRequest → World → Answer PhysicalRoom × World
  room_parsed none body w = (failure 400, w)
  room_parsed (some id) none w = (failure 400, w)
  room_parsed (some id) (some req) w = room_of_type id req (parse_uuid req.room_type_id) w

  -- `AdminPropertyHandler.CreateRoom`; the reply has every field of the room.
  unfoldable pub handle_create_room :
      String → Option CreateRoomRequest → World → Answer PhysicalRoom × World
  handle_create_room id body w = room_parsed (parse_uuid id) body w
