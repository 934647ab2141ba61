-- ===== src/Rooms.antt =====
-- app/services/rooms.py: the rooms of watch-parties, kept in memory. A `RoomState` is an object that
-- the registry and the connections share, so it stands on a heap under an address; a connection may
-- hold the address of a room that the registry has dropped. A user id is a number, as in the
-- database (`str` of a UUID is only compared), a connection is the number of its socket, and a
-- playback position is a value of any type `P`, which the code only stores and sends.
pub mod Membership
pub mod Delivery
use seans.Prelude.{
  ℕ, ◌+◌, String, Bool, true, false, not, Option, none, some, List, [], ◌∷◌, ◌++◌, ◌==◌, is_id,
  if◌then◌else◌,
}
use seans.Prelude.Dict.{Dict, lookup, insert, erase, contains, nat_eq, string_eq}

pub record Member {ℓ} (P : Type ℓ) : Type ℓ where
  pub ws : ℕ
  pub user_id : ℕ
  pub name : String
  pub position : P
  pub last_seen : ℕ

pub record RoomState {ℓ} (P : Type ℓ) : Type ℓ where
  pub host_id : ℕ
  pub members : Dict ℕ (Member P)
  pub position : P
  pub is_playing : Bool
  pub updated_at : ℕ

-- The messages of the protocol, with the `action` as the client sent it.
pub data Message {ℓ} (P : Type ℓ) : Type ℓ where
  room_state : ℕ → P → Bool → ℕ → Message P
  member_joined : ℕ → String → Message P
  member_left : ℕ → String → Message P
  state : Option String → P → ℕ → Message P
  error : String → Message P

-- The memory of the process: `_rooms`, the room objects, and what was sent to which socket.
pub record World {ℓ} (P : Type ℓ) : Type ℓ where
  pub registry : Dict String ℕ
  pub heap : Dict ℕ (RoomState P)
  pub next : ℕ
  pub sent : List (ℕ × Message P)

module _ {ℓ} {P : Type ℓ} where
  -- The room object at an address.
  abbrev pub room_at : ℕ → World P → Option (RoomState P)
  room_at address world = lookup address world.heap

  -- A change of the object's attributes.
  abbrev pub set_room : ℕ → RoomState P → World P → World P
  set_room address room world = record world { heap = insert address room world.heap }

  -- `_rooms.get(code)`: the address of the room.
  unfoldable pub get_room : String → World P → Option ℕ
  get_room code world = lookup code world.registry

  -- `zero` is `0.0`.
  unfoldable pub create_room : P → ℕ → String → ℕ → World P → ℕ × World P
  create_room zero now code host_id world = (
    world.next,
    record world {
      registry = insert code world.next world.registry;
      heap =
          insert world.next
            (record {
              host_id = host_id;
              members = [];
              position = zero;
              is_playing = false;
              updated_at = now;
            })
            world.heap;
      next = world.next + 1;
    },
  )

  unfoldable pub remove_room : String → World P → World P
  remove_room code world = record world { registry = erase code world.registry }

  -- The loop of `broadcast`; a send that raises is passed over. `is_open` says which sockets take a
  -- message.
  unfoldable pub deliveries :
      (ℕ → Bool) → Message P → Option ℕ → Dict ℕ (Member P) → List (ℕ × Message P)
  deliveries is_open message exclude [] = []
  deliveries is_open message exclude ((uid, member) ∷ members) =
      let rest = deliveries is_open message exclude members in
      if is_id exclude uid
      then rest
      else if is_open member.ws
      then (member.ws, message) ∷ rest
      else rest

  abbrev pub at_address : ℕ → Option (RoomState P) → Option (ℕ × RoomState P)
  at_address address none = none
  at_address address (some room) = some (address, room)

  abbrev pub resolve : World P → Option ℕ → Option (ℕ × RoomState P)
  resolve world none = none
  resolve world (some address) = at_address address (room_at address world)

  -- The room of a code, as the functions that change it read it: its address and its state.
  abbrev pub room_of : String → World P → Option (ℕ × RoomState P)
  room_of code world = resolve world (get_room code world)

  -- The bodies below `room = _rooms.get(code)`, on the room that was found.
  unfoldable pub broadcast_in :
      (ℕ → Bool) → Message P → Option ℕ → Option (ℕ × RoomState P) → World P → World P
  broadcast_in is_open message exclude none world = world
  broadcast_in is_open message exclude (some (address, room)) world = record world {
    sent = world.sent ++ deliveries is_open message exclude room.members;
  }

  unfoldable pub broadcast : (ℕ → Bool) → String → Message P → Option ℕ → World P → World P
  unfolding broadcast_in
  broadcast is_open code message exclude world =
      broadcast_in is_open message exclude (room_of code world) world

  -- `Member(ws=ws, user_id=user_id, name=name)`, where `zero` is `0.0`.
  abbrev pub new_member : P → ℕ → ℕ → String → ℕ → Member P
  new_member zero now user_id name ws = record {
    ws = ws;
    user_id = user_id;
    name = name;
    position = zero;
    last_seen = now;
  }

  unfoldable pub add_in : P → ℕ → ℕ → String → ℕ → Option (ℕ × RoomState P) → World P → World P
  add_in zero now user_id name ws none world = world
  add_in zero now user_id name ws (some (address, room)) world =
      set_room address
        (record room {
          members = insert user_id (new_member zero now user_id name ws) room.members;
        })
        world

  unfoldable pub add_member : P → ℕ → String → ℕ → String → ℕ → World P → World P
  unfolding add_in
  add_member zero now code user_id name ws world =
      add_in zero now user_id name ws (room_of code world) world

  -- The end of `remove_member`, with the members that are left.
  unfoldable pub settle_host :
      String → ℕ → ℕ → RoomState P → Dict ℕ (Member P) → World P → Option ℕ × World P
  settle_host code user_id address room [] world =
      (none, remove_room code (set_room address (record room { members = [] }) world))
  settle_host code user_id address room ((uid, m) ∷ rest) world =
      if room.host_id == user_id
      then (
        some uid,
        set_room address (record room { members = (uid, m) ∷ rest; host_id = uid }) world,
      )
      else (none, set_room address (record room { members = (uid, m) ∷ rest }) world)

  unfoldable pub remove_in : String → ℕ → Option (ℕ × RoomState P) → World P → Option ℕ × World P
  unfolding settle_host
  remove_in code user_id none world = (none, world)
  remove_in code user_id (some (address, room)) world =
      if contains user_id room.members
      then settle_host code user_id address room (erase user_id room.members) world
      else (none, world)

  -- Remove member. Returns new host_id if host changed, None otherwise.
  unfoldable pub remove_member : String → ℕ → World P → Option ℕ × World P
  unfolding remove_in
  remove_member code user_id world = remove_in code user_id (room_of code world) world
