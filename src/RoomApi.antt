-- ===== src/RoomApi.antt =====
-- app/routers/rooms.py: opening a room for a file, and reading it. The handler changes the database
-- and the memory of app/services/rooms.py, so its state is both. `code` is the random text that
-- `generate_code` makes, `id` the `uuid4()` of the row.
pub mod Open
use seans.Prelude.{
  ℕ, ◌+◌, String, Bool, true, false, not, Option, none, some, List, [], ◌∷◌, ◌++◌, ◌&&◌, map, ◌==◌,
  str_eq, concat,
}
use seans.Prelude.Int.{ℤ, pos}
use seans.Http.{
  Action, ok, raise, http, internal_server_error, or_raise, raise_if, pure, gets, commit, ◌>>=◌,
  ◌>>◌,
}
use seans.Table.{select, find, exists, join}
use seans.Models.{Database, User, Room, RoomMember}
use seans.Rooms.{World, create_room}
use seans.Library.{files_with_tasks}

pub record RoomResponse : Type 0 where
  pub id : ℕ
  pub code : String
  pub ws_url : String

abbrev pub new_room : ℕ → ℕ → String → User → ℕ → Room
new_room id now code user task_file_id = record {
  id = id;
  code = code;
  host_user_id = user.id;
  task_file_id = task_file_id;
  current_position = pos 0;
  is_playing = false;
  created_at = now;
  closed_at = none;
}

-- `Room.code == code`
abbrev pub is_room : String → Room → Bool
is_room code room = str_eq room.code code

-- The commit fails if a room has the code already (`unique=True`).
unfoldable pub create_room_endpoint {ℓ} :
    {P : Type ℓ} → P → ℕ → ℕ → String → ℕ → User → Action (Database × World P) RoomResponse
create_room_endpoint zero now id code task_file_id user = do
  row ←
      gets
        (λ s. find (λ r. r.0.id == task_file_id && r.1.user_id == user.id) (files_with_tasks s.0))
  _ ← or_raise row (http 404 "File not found")
  taken ← gets (λ s. exists (is_room code) s.0.rooms)
  raise_if taken internal_server_error
  commit (λ s. (
    record s.0 { rooms = s.0.rooms ++ new_room id now code user task_file_id ∷ [] },
    (create_room zero now code user.id s.1).1,
  ))
  pure (record { id = id; code = code; ws_url = concat ("/ws/rooms/" ∷ code ∷ []) })

-- The room and the ids of its members.
unfoldable pub get_room_endpoint : String → Action Database (Room × List ℕ)
get_room_endpoint code = do
  found ← gets (λ db. find (is_room code) db.rooms)
  room ← or_raise found (http 404 "Room not found")
  members ← gets (λ db. select (λ m. m.room_id == room.id) db.room_members)
  pure (room, map (λ m. m.user_id) members)
