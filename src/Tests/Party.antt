-- ===== src/Tests/Party.antt =====
-- Rooms and the connections to them.
use seans.Prelude.{
  none, ◌⊎◌, inr, ◌==◌, str_eq, if◌then◌else◌, ℕ, ◌≡◌, refl, Bool, true, false, some, [], ◌∷◌, ◌++◌,
  map, arith,
}
use seans.Prelude.Dict.{lookup, nat_eq, string_eq}
use seans.Table.{select, find, exists, join}
use mathlib.Core.List.{Mem}
use seans.Prelude.Int.{pos}
use seans.Library.{files_with_tasks}
use seans.Models.{User, Database, Room, Task, TaskFile}
use seans.Rooms.{
  RoomState, Message, World, room_of, room_at, get_room, new_member, add_member, broadcast,
}
use seans.Rooms.Membership.{HostPresent}
use seans.Rooms.Delivery.{is_recipient, has_user, broadcast_sends}
use seans.WebSocket.{Session, Command, handle, disconnect}
use seans.WebSocket.Control.{playback, non_host_controls_nothing}
use seans.WebSocket.Entry.{Handshake, authenticate_ws, websocket_room, websocket_room_cases}
use seans.Auth.{Crypto}
use seans.WebSocket.Hosting.{Step, Reach, Reach-HostPresent}
use seans.RoomApi.{RoomResponse, new_room, is_room, create_room_endpoint}
use seans.RoomApi.Open.{create_room_endpoint_opens}
use seans.Tests.Sample.{alice, with_tasks, held_task, pending_file}

-- Alice hosts, bob watches; positions are numbers.
abbrev room : RoomState ℕ
room = record {
  host_id = 1;
  members = (1, new_member 0 5 1 "alice" 100) ∷ (2, new_member 0 6 2 "bob" 101) ∷ [];
  position = 40;
  is_playing = true;
  updated_at = 6;
}

abbrev world : World ℕ
world = record { registry = ("ABC", 0) ∷ []; heap = (0, room) ∷ []; next = 1; sent = [] }

abbrev all_open : ℕ → Bool
all_open ws = true

abbrev bob_session : Session
bob_session = record { code = "ABC"; user_id = 2; name = "bob"; ws = 101; room = 0 }

abbrev alice_session : Session
alice_session = record { code = "ABC"; user_id = 1; name = "alice"; ws = 100; room = 0 }

non_host_controls_nothing_example :
    playback
      (room_at 0 (handle 0 all_open bob_session (Command.state (some "pause") (some 3)) 9 world).1)
    ≡ playback (room_at 0 world)
unfolding lookup
non_host_controls_nothing_example =
    non_host_controls_nothing 0 all_open bob_session (Command.state (some "pause") (some 3)) 9 world
      room 0 refl (ground arith)

broadcast_sends_example :
    broadcast all_open "ABC" (Message.member_left 3 "eve") (some 1) world ≡ record world {
      sent =
          []
          ++ map
              (λ r. (r.1.ws, Message.member_left 3 "eve"))
              (select (is_recipient all_open (some 1)) room.members);
    }
unfolding get_room lookup
broadcast_sends_example =
    broadcast_sends all_open "ABC" (Message.member_left 3 "eve") (some 1) world 0 room refl

-- Eve joins, alice pauses and leaves.
abbrev joined : World ℕ
joined = add_member 0 7 "ABC" 3 "eve" 102 world

abbrev paused : World ℕ
paused = (handle 0 all_open alice_session (Command.state (some "pause") (some 44)) 8 joined).1

abbrev ended : World ℕ
ended = disconnect 0 all_open alice_session 9 paused

story : Reach 0 all_open "ABC" world ended
story =
    Reach.next
      (Reach.next (Reach.next Reach.here (Step.joins 7 3 "eve" 102 world))
        (Step.sends alice_session (Command.state (some "pause") (some 44)) 8 joined))
      (Step.leaves alice_session 9 paused refl)

Reach-HostPresent_example : HostPresent "ABC" ended
unfolding get_room lookup
Reach-HostPresent_example = Reach-HostPresent 0 all_open "ABC" world ended refl story

abbrev db : Database
db = record (with_tasks (held_task 11 1 ∷ [])) { task_files = pending_file 20 11 ∷ [] }

abbrev opened : RoomResponse
opened = record { id = 60; code = "XYZ"; ws_url = "/ws/rooms/XYZ" }

create_room_endpoint_opens_example :
    let (db', world') = (create_room_endpoint 0 9 60 "XYZ" 20 alice (db, world)).1 in
    (opened.code ≡ "XYZ")
    × (file : TaskFile) × (task : Task) × Mem (file, task) (files_with_tasks db)
    × (file.id ≡ 20)
    × (task.user_id ≡ 1)
    × (row : Room) × (find (is_room "XYZ") db'.rooms ≡ some row)
    × (row.id ≡ 60)
    × (row.task_file_id ≡ 20)
    × (row.host_user_id ≡ 1)
    × (row.current_position ≡ pos 0)
    × (row.is_playing ≡ false)
    × (row.closed_at ≡ none)
    × (address : ℕ) × (r : RoomState ℕ) × (room_of "XYZ" world' ≡ some (address, r))
    × (r.host_id ≡ row.host_user_id)
    × (r.members ≡ [])
    × (r.is_playing ≡ false)
unfolding create_room_endpoint find select join exists
create_room_endpoint_opens_example =
    create_room_endpoint_opens 0 9 60 "XYZ" 20 alice db world opened refl

-- Tokens that are ids.
abbrev id_tokens : Crypto ℕ
id_tokens = record {
  encode = λ sub exp. exp;
  decode = λ now token. some (some (if token == 1 then "1" else "2"));
  parse_uuid = λ sub. some (if str_eq sub "1" then 1 else 2);
  str_uuid = λ id. if id == 1 then "1" else "2";
  hash_password = λ s. s;
  check_password = str_eq;
  same_email = str_eq;
}

abbrev with_room : Database
with_room = record db { rooms = new_room 60 9 "ABC" alice 20 ∷ [] }

websocket_room_cases_example :
    let (end, world') = websocket_room 0 all_open id_tokens 12 "ABC" 2 103 with_room world in
    ((authenticate_ws id_tokens 12 2 with_room ≡ none)
      × (end ≡ Handshake.closed 4001 "Unauthorized")
      × (world' ≡ world))
    ⊎ ((find (is_room "ABC") with_room.rooms ≡ none)
        × (end ≡ Handshake.closed 4004 "Room not found")
        × (world' ≡ world))
    ⊎ ((user : User) × (s : Session) × (live : Bool) × (authenticate_ws id_tokens 12 2 with_room
          ≡ some user)
        × (end ≡ Handshake.accepted s live)
        × (live ≡ true → has_user user.id (room_of "ABC" world') ≡ true))
unfolding get_room lookup
websocket_room_cases_example =
    websocket_room_cases 0 all_open id_tokens 12 "ABC" 2 103 with_room world (inr (0, room, refl))
