-- ===== src/Properties/Requests.antt =====
-- The requests to internal/adapter/http/v1/admin_property_handler.go, in any order and under any
-- faults of the database, and the invariant of the tables.
use Prim.Native.Char.{Char}
use doki_core_backend.Prelude.{ℕ, String, List, [], ◌∷◌, Option, none, some}
use doki_core_backend.Errors.{Err}
use doki_core_backend.Properties.Service.{
  World, lacks_room_type, lacks_text, create_trimmed, after_create, filled, trimmed, on_db,
  update_row, after_get, merged, create_room_type_trimmed, create_room_trimmed, lacks_room,
  room_type_trimmed, room_trimmed,
}
use doki_core_backend.Properties.Service
use doki_core_backend.Properties.Api.{
  CreatePropertyRequest, UpdatePropertyRequest, CreateRoomTypeRequest, CreateRoomRequest,
  handle_create_property, handle_get_property, handle_update_property, handle_create_room_type,
  handle_create_room, update_parsed, room_type_parsed, room_parsed, room_of_type, get_parsed,
}
use doki_core_backend.Properties.Sound.{IsSound}
use doki_core_backend.Properties.Kept.{
  SoundWorld, create_property-SoundWorld, get_by_id-keeps, update_property-SoundWorld,
  create_room_type-SoundWorld, create_room-SoundWorld,
}

-- A request: the path's id and the body.
pub data Request : Type 0 where
  post_property : Option CreatePropertyRequest → Request
  get_property : String → Request
  put_property : String → Option UpdatePropertyRequest → Request
  post_room_type : String → Option CreateRoomTypeRequest → Request
  post_room : String → Option CreateRoomRequest → Request

-- What a request meets: the error of its context, and a random id.
pub record Setting : Type 0 where
  pub ctx_err : Option Err
  pub uuid : ℕ

module _ (parse_uuid : String → Option ℕ) (table : Char → Char) where
  unfoldable pub serve_request : Setting → Request → World → World
  serve_request s (post_property body) w =
      (handle_create_property parse_uuid table s.ctx_err s.uuid body w).1
  serve_request s (get_property id) w =
      (handle_get_property parse_uuid table s.ctx_err s.uuid id w).1
  serve_request s (put_property id body) w =
      (handle_update_property parse_uuid table s.ctx_err s.uuid id body w).1
  serve_request s (post_room_type id body) w =
      (handle_create_room_type parse_uuid table s.ctx_err s.uuid id body w).1
  serve_request s (post_room id body) w =
      (handle_create_room parse_uuid table s.ctx_err s.uuid id body w).1

  unfoldable pub serve_all : List (Setting × Request) → World → World
  serve_all [] w = w
  serve_all ((s, request) ∷ rest) w = serve_all rest (serve_request s request w)

  update_parsed-SoundWorld :
      (s : Setting) (id : Option ℕ) (body : Option UpdatePropertyRequest) (w : World)
      → SoundWorld w
      → SoundWorld (update_parsed parse_uuid table s.ctx_err s.uuid id body w).1
  unfolding update_parsed
  update_parsed-SoundWorld s none body w h = h
  update_parsed-SoundWorld s (some id) none w h = h
  update_parsed-SoundWorld s (some id) (some req) w h = update_property-SoundWorld s.ctx_err _ w h

  room_type_parsed-SoundWorld :
      (s : Setting) (id : Option ℕ) (body : Option CreateRoomTypeRequest) (w : World)
      → SoundWorld w
      → SoundWorld (room_type_parsed parse_uuid table s.ctx_err s.uuid id body w).1
  unfolding room_type_parsed
  room_type_parsed-SoundWorld s none body w h = h
  room_type_parsed-SoundWorld s (some id) none w h = h
  room_type_parsed-SoundWorld s (some id) (some req) w h =
      create_room_type-SoundWorld table s.ctx_err s.uuid _ w h

  room_of_type-SoundWorld :
      (s : Setting) (id : ℕ) (req : CreateRoomRequest) (type : Option ℕ) (w : World)
      → SoundWorld w
      → SoundWorld (room_of_type parse_uuid table s.ctx_err s.uuid id req type w).1
  unfolding room_of_type
  room_of_type-SoundWorld s id req none w h = h
  room_of_type-SoundWorld s id req (some t) w h = create_room-SoundWorld s.ctx_err s.uuid _ w h

  room_parsed-SoundWorld :
      (s : Setting) (id : Option ℕ) (body : Option CreateRoomRequest) (w : World)
      → SoundWorld w
      → SoundWorld (room_parsed parse_uuid table s.ctx_err s.uuid id body w).1
  unfolding room_parsed
  room_parsed-SoundWorld s none body w h = h
  room_parsed-SoundWorld s (some id) none w h = h
  room_parsed-SoundWorld s (some id) (some req) w h =
      room_of_type-SoundWorld s id req (parse_uuid req.room_type_id) w h

  get_parsed-SoundWorld :
      (s : Setting) (id : Option ℕ) (w : World)
      → SoundWorld w
      → SoundWorld (get_parsed parse_uuid table s.ctx_err s.uuid id w).1
  unfolding get_parsed Service.get_property_by_id on_db
  get_parsed-SoundWorld s none w h = h
  get_parsed-SoundWorld s (some id) w h = get_by_id-keeps id w.db h

  serve_request-SoundWorld :
      (s : Setting) (request : Request) (w : World)
      → SoundWorld w
      → SoundWorld (serve_request s request w)
  unfolding serve_request handle_create_property handle_get_property handle_update_property
      handle_create_room_type handle_create_room
  serve_request-SoundWorld s (post_property none) w h = h
  serve_request-SoundWorld s (post_property (some req)) w h =
      create_property-SoundWorld table s.ctx_err s.uuid _ _ w h
  serve_request-SoundWorld s (get_property id) w h = get_parsed-SoundWorld s (parse_uuid id) w h
  serve_request-SoundWorld s (put_property id body) w h =
      update_parsed-SoundWorld s (parse_uuid id) body w h
  serve_request-SoundWorld s (post_room_type id body) w h =
      room_type_parsed-SoundWorld s (parse_uuid id) body w h
  serve_request-SoundWorld s (post_room id body) w h =
      room_parsed-SoundWorld s (parse_uuid id) body w h

  -- After any requests, whatever the database does with their calls, the three tables are sound if
  -- they were before: no two rows share a key, every property has a code and values that fit its
  -- columns, every room type belongs to a property and has a code, a name, a capacity and an inventory
  -- above zero, and every room has a number and belongs to a property and a room type.
  pub serve_all-IsSound :
      (requests : List (Setting × Request)) (w : World)
      → IsSound w.db.tables
      → IsSound (serve_all requests w).db.tables
  unfolding serve_all
  serve_all-IsSound [] w h = h
  serve_all-IsSound ((s, request) ∷ rest) w h =
      serve_all-IsSound rest (serve_request s request w) (serve_request-SoundWorld s request w h)
