-- ===== src/Properties/Tests.antt =====
-- Requests about properties at concrete inputs.
use Prim.Native.Char.{Char}
use doki_core_backend.Prelude.{ℕ, ◌≡◌, refl, String, Option, List, [], ◌∷◌, none, some, true}
use doki_core_backend.Prelude.Int.{pos}
use doki_core_backend.Properties.Service.{World, lacks_text}
use doki_core_backend.Properties.Api.{
  CreatePropertyRequest, UpdatePropertyRequest, CreateRoomTypeRequest, parsed_owner,
  property_update, handle_create_property, handle_update_property,
}
use doki_core_backend.Properties.Sound.{IsSound}
use doki_core_backend.Properties.Requests.{
  Request, Setting, post_property, put_property, post_room_type, post_room, serve_all,
  serve_all-IsSound,
}
use doki_core_backend.Properties.Updating.{Updates, handle_update_property-Updates}
use doki_core_backend.Properties.Creating.{Creates, requested, handle_create_property-Creates}

abbrev same : Char → Char
same c = c

abbrev seven : String → Option ℕ
seven text = some 7

abbrev empty : World
empty = record {
  db = record {
    tables = record { properties = []; room_types = []; rooms = [] };
    owners = λ id. true;
    cast_time = λ text. some text;
    cast_degrees = λ n x. some x;
    collates_le = λ s t. true;
    faults = [];
  };
  users = record { rows = []; assignments = []; arrives = 0; faults = [] };
}

abbrev doki_adama : CreatePropertyRequest
doki_adama = record {
  code = " DK-01 ";
  name = "Doki Adama";
  category = "";
  city = "Adama";
  region = "Oromia";
  latitude = none;
  longitude = none;
  base_currency = "";
  owner_user_id = some "abebe";
}

abbrev renaming : UpdatePropertyRequest
renaming = record {
  name = "Doki Grand";
  category = "";
  status = "ACTIVE";
  city = "";
  region = "";
  latitude = none;
  longitude = none;
}

abbrev twin : CreateRoomTypeRequest
twin = record {
  code = "TWN";
  name = "Twin";
  capacity = pos 2;
  base_rate_minor = pos 150000;
  total_inventory = pos 10;
}

abbrev requests : List (Setting × Request)
requests =
    (record { ctx_err = none; uuid = 7 }, post_property (some doki_adama))
    ∷ (record { ctx_err = none; uuid = 8 }, post_room_type "7" (some twin))
    ∷ (
      record { ctx_err = none; uuid = 9 },
      post_room "7" (some (record { room_type_id = "7"; room_number = "101"; floor = none })),
    )
    ∷ (record { ctx_err = none; uuid = 10 }, put_property "7" (some renaming))
    ∷ []

empty-IsSound : IsSound empty.db.tables
empty-IsSound = record {
  property_keys = tt;
  profiles = tt;
  property_codes = tt;
  room_type_keys = tt;
  room_type_homes = tt;
  stock = tt;
  room_keys = tt;
  numbers = tt;
  room_homes = tt;
}

serve_all-IsSound_example : IsSound (serve_all seven same requests empty).db.tables
serve_all-IsSound_example = serve_all-IsSound seven same requests empty empty-IsSound

handle_create_property-Creates_example :
    Creates
      (lacks_text (requested same 7 (parsed_owner seven same none 7 (some "abebe")) doki_adama))
      (requested same 7 (parsed_owner seven same none 7 (some "abebe")) doki_adama)
      empty
      (handle_create_property seven same none 7 (some doki_adama) empty)
handle_create_property-Creates_example =
    handle_create_property-Creates seven same 7 none doki_adama empty

abbrev holding : World
holding = record empty {
  db = record empty.db {
    tables = record {
      properties = requested same 7 none doki_adama ∷ [];
      room_types = [];
      rooms = [];
    };
  };
}

handle_update_property-Updates_example :
    let (reply, w1) = handle_update_property seven same none 9 "7" (some renaming) holding in
    Updates (property_update seven same none 9 7 renaming) holding.db (reply, w1.db.tables)
    × (w1.users ≡ holding.users)
handle_update_property-Updates_example =
    handle_update_property-Updates seven same none 9 7 "7" renaming holding (tt, tt) refl
