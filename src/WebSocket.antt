-- ===== src/WebSocket.antt =====
-- app/routers/ws.py: a connection to a room, from the handshake to the clean-up. A connection is
-- handled one message at a time, and what the handler does for one message is one step here. (The
-- real handler may be suspended inside a broadcast; that interleaving is not modelled.)
pub mod Control
pub mod Hosting
pub mod Entry
use seans.Prelude.{
  ℕ, ◌/◌, String, Bool, true, false, not, Option, none, some, List, [], ◌∷◌, ◌++◌, ◌==◌, ◌||◌,
  get_or, str_eq, if◌then◌else◌,
}
use seans.Prelude.Dict.{lookup, insert, nat_eq}
use seans.Rooms.{
  Member, RoomState, Message, World, room_at, room_of, set_room, get_room, create_room, broadcast,
  add_member, remove_member,
}

-- What the handler keeps in its variables: `room` is the address of the object that it found.
pub record Session : Type 0 where
  pub code : String
  pub user_id : ℕ
  pub name : String
  pub ws : ℕ
  pub room : ℕ

-- A message that a client sends, by its `type`; any other type falls through the tests.
pub data Command {ℓ} (P : Type ℓ) : Type ℓ where
  join sync_request leave unknown : Command P
  heartbeat : Option P → Command P
  state : Option String → Option P → Command P

-- `ws.send_json(…)`, and whether it went out.
abbrev pub send {ℓ} : {P : Type ℓ} → (ℕ → Bool) → ℕ → Message P → World P → Bool × World P
send is_open ws message world =
    if is_open ws
    then (true, record world { sent = world.sent ++ (ws, message) ∷ [] })
    else (false, world)

module _ {ℓ} {P : Type ℓ} (zero : P) (is_open : ℕ → Bool) where
  -- `int(time.time())`
  abbrev pub whole_seconds : ℕ → ℕ
  whole_seconds now = now / 1000000

  -- The state of the session's room, sent to its socket.
  unfoldable pub send_state_of : Session → ℕ → Option (RoomState P) → World P → Bool × World P
  send_state_of s now none world = (false, world)
  send_state_of s now (some room) world =
      send is_open s.ws
        (Message.room_state room.host_id room.position room.is_playing (whole_seconds now)) world

  unfoldable pub send_room_state : Session → ℕ → World P → Bool × World P
  unfolding send_state_of
  send_room_state s now world = send_state_of s now (room_at s.room world) world

  -- `if room is None: room = create_room(…)`: the address of the room of a code.
  unfoldable pub ensure_room : ℕ → String → ℕ → Option ℕ → World P → ℕ × World P
  ensure_room now code host_user_id none world = create_room zero now code host_user_id world
  ensure_room now code host_user_id (some address) world = (address, world)

  -- `if room_obj: await broadcast(…)`
  unfoldable pub announce_in : Session → ℕ → ℕ → Option (ℕ × RoomState P) → World P → World P
  announce_in s now host none world = world
  announce_in s now host (some (address, room)) world =
      broadcast is_open s.code
        (Message.room_state host room.position room.is_playing (whole_seconds now)) none world

  -- `if new_host_id: …`
  unfoldable pub announce_host : Session → ℕ → Option ℕ → World P → World P
  unfolding announce_in
  announce_host s now none world = world
  announce_host s now (some host) world = announce_in s now host (room_of s.code world) world

  -- The `finally` block.
  unfoldable pub disconnect : Session → ℕ → World P → World P
  disconnect s now world =
      let (new_host_id, removed) = remove_member s.code s.user_id world in
      announce_host s now new_host_id
        (broadcast is_open s.code (Message.member_left s.user_id s.name) none removed)

  -- The greeting, and whether the session goes on: a socket that is gone raises.
  unfoldable pub greet : Session → ℕ → World P → Bool × World P
  greet s now world =
      let (sent, world') = send_room_state s now world in
      if sent
      then (
        true,
        broadcast is_open s.code (Message.member_joined s.user_id s.name) (some s.user_id) world',
      )
      else (false, disconnect s now world')

  -- The handshake of an authenticated user with a room that the database has, up to the loop.
  unfoldable pub connect : ℕ → String → ℕ → ℕ → String → ℕ → World P → Session × Bool × World P
  connect now code host_user_id user_id name ws world =
      let (address, found) = ensure_room now code host_user_id (get_room code world) world in
      let s : Session = record {
        code = code;
        user_id = user_id;
        name = name;
        ws = ws;
        room = address;
      } in
      let (live, world') = greet s now (add_member zero now code user_id name ws found) in
      (s, live, world')

  -- `if action in ("play", "pause"): … elif action == "seek": …`
  unfoldable pub control : Option String → P → ℕ → RoomState P → RoomState P
  control none position now room = room
  control (some action) position now room =
      if str_eq action "play" || str_eq action "pause"
      then record room { is_playing = str_eq action "play"; position = position; updated_at = now }
      else if str_eq action "seek"
      then record room { position = position; updated_at = now }
      else room

  -- `if user_id in room.members: …`
  unfoldable pub touch_found : ℕ → P → ℕ → Option (Member P) → RoomState P → RoomState P
  touch_found user_id position now none room = room
  touch_found user_id position now (some m) room = record room {
    members = insert user_id (record m { position = position; last_seen = now }) room.members;
  }

  unfoldable pub touch_member : ℕ → P → ℕ → RoomState P → RoomState P
  unfolding touch_found
  touch_member user_id position now room =
      touch_found user_id position now (lookup user_id room.members) room

  -- The branch of a `state` message.
  unfoldable pub handle_state :
      Session → Option String → Option P → ℕ → RoomState P → World P → Bool × World P
  handle_state s action position now room world =
      if not (room.host_id == s.user_id)
      then send is_open s.ws (Message.error "Only host can control playback") world
      else (let at = get_or position room.position in
          (
            true,
            broadcast is_open s.code (Message.state action at s.user_id) (some s.user_id)
                (set_room s.room (control action at now room) world),
          ))

  -- The branches of the loop that read the session's room.
  unfoldable pub handle_in :
      Session → Command P → ℕ → Option (RoomState P) → World P → Bool × World P
  handle_in s (Command.heartbeat position) now (some room) world =
      (true, set_room s.room (touch_member s.user_id (get_or position zero) now room) world)
  handle_in s (Command.state action position) now (some room) world =
      handle_state s action position now room world
  handle_in s Command.leave now room world = (false, world)
  handle_in s Command.sync_request now room world = send_state_of s now room world
  handle_in s _ now room world = (true, world)

  -- One round of the loop: whether the loop goes on, and the world after the message.
  unfoldable pub handle : Session → Command P → ℕ → World P → Bool × World P
  handle s command now world = handle_in s command now (room_at s.room world) world

  -- The messages of a connection up to its end, and the clean-up.
  unfoldable pub run_session : Session → List (ℕ × Command P) → ℕ → World P → World P
  run_session s [] now world = disconnect s now world
  run_session s ((at, command) ∷ commands) now world =
      let (live, world') = handle s command at world in
      let rest = run_session s commands now world' in if live then rest else disconnect s at world'
