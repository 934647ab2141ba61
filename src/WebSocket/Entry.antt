-- ===== src/WebSocket/Entry.antt =====
-- app/routers/ws.py: the handshake of a connection, and who gets into a room.
use seans.Prelude.{
  ℕ, ◌≡◌, ◌⊎◌, String, Bool, true, Option, none, some, arith, inl, inr, Option-cases, Bool-cases,
  ◌==◌, ==_self,
}
use seans.Prelude.Dict.{lookup-insert, nat_eq, string_eq}
use seans.Http.{Result, ok, raise}
use seans.Table.{find}
use seans.Models.{Database, User, Room}
use seans.Auth.{Crypto, verify_token}
use seans.RoomApi.{is_room}
use seans.Rooms.{
  RoomState, Message, World, room_of, room_at, get_room, broadcast, add_member, new_member,
}
use seans.Rooms.Delivery.{has_user, set_room-room_of}
use seans.RoomApi.Open.{created-room_of}
use seans.WebSocket.{Session, send_room_state, send_state_of, ensure_room, greet, connect}

-- How a request for a connection ends: closed with a code and a reason, or accepted, with whether
-- the greeting went out.
pub data Handshake : Type 0 where
  closed : ℕ → String → Handshake
  accepted : Session → Bool → Handshake

-- The user of an id that a token gave, if it gave one.
unfoldable pub user_of : Result ℕ → Database → Option User
user_of (raise e) db = none
user_of (ok user_id) db = find (λ u. u.id == user_id) db.users

unfoldable pub authenticate_ws :
    {Token : Type 0} → Crypto Token → ℕ → Token → Database → Option User
unfolding user_of
authenticate_ws crypto now token db = user_of (verify_token crypto now token db).0 db

module _ {ℓ} {P : Type ℓ} (zero : P) (is_open : ℕ → Bool) where
  -- The handler below the look-up of the room in the database.
  unfoldable pub open_room : ℕ → String → ℕ → User → Option Room → World P → Handshake × World P
  unfolding connect
  open_room now code ws user none world = (closed 4004 "Room not found", world)
  open_room now code ws user (some room_db) world =
      let (s, live, world') =
        connect zero is_open now code room_db.host_user_id user.id user.display_name ws world in
      (accepted s live, world')

  -- The handler below the authentication.
  unfoldable pub open_user : ℕ → String → ℕ → Database → Option User → World P → Handshake × World P
  unfolding open_room
  open_user now code ws db none world = (closed 4001 "Unauthorized", world)
  open_user now code ws db (some user) world =
      open_room now code ws user (find (is_room code) db.rooms) world

  -- `websocket_room` up to its loop, with the text `token` of the query.
  unfoldable pub websocket_room :
      {Token : Type 0}
      → Crypto Token
      → ℕ
      → String
      → Token
      → ℕ
      → Database
      → World P
      → Handshake × World P
  unfolding open_user
  websocket_room crypto now code token ws db world =
      open_user now code ws db (authenticate_ws crypto now token db) world

  -- A message changes no room.
  broadcast-room_of :
      (code code' : String) (message : Message P) (exclude : Option ℕ) (world : World P)
      → room_of code (broadcast is_open code' message exclude world) ≡ room_of code world
  unfolding broadcast get_room
  broadcast-room_of code code' message exclude world = elim (Option-cases (room_of code' world)) [
    | inl e ↦ rw e
    | inr ((address, room), e) ↦ rw e
  ]

  added_member :
      (now : ℕ) (code : String) (user_id : ℕ) (name : String) (ws address : ℕ) (room : RoomState P)
      (world : World P)
      → room_of code world ≡ some (address, room)
      → has_user user_id (room_of code (add_member zero now code user_id name ws world)) ≡ true
  unfolding add_member
  added_member now code user_id name ws address room world e =
      rw (e, set_room-room_of code address room _ world e)
        (ground (
          arith,
          lookup-insert user_id user_id (new_member zero now user_id name ws) room.members,
          ==_self user_id,
        ))

  greet-room_of :
      (code : String) (s : Session) (now : ℕ) (world : World P)
      → (greet zero is_open s now world).0 ≡ true
      → room_of code (greet zero is_open s now world).1 ≡ room_of code world
  unfolding greet send_room_state send_state_of get_room
  greet-room_of code s now world live = elim (Option-cases (room_at s.room world)) [
    | inl e ↦ let dead = rw e at live in absurd (ground arith)
    | inr (room, e) ↦ elim (Bool-cases (is_open s.ws)) [
      | inr shut ↦ let dead = rw (e, shut) at live in absurd (ground arith)
      | inl up ↦ rw (e, up) (broadcast-room_of code s.code _ _ _)
    ]
  ]

  -- The object of a room that the registry has is on the heap.
  abbrev pub IsLinked : String → World P → Type ℓ
  IsLinked code world =
      (get_room code world ≡ none)
      ⊎ ((address : ℕ) × (room : RoomState P) × (room_of code world ≡ some (address, room)))

  ensured_room :
      (now : ℕ) (code : String) (host : ℕ) (world : World P)
      → IsLinked code world
      → (address : ℕ) × (room : RoomState P) × (room_of code
            (ensure_room zero is_open now code host (get_room code world) world).1
          ≡ some (address, room))
  unfolding ensure_room
  ensured_room now code host world (inl e) =
      let (room, there, _, _, _) = created-room_of zero now code host world in
      rw e (world.next, room, there)
  ensured_room now code host world (inr (address, room, e)) =
      elim (Option-cases (get_room code world)) [
        | inl f ↦ let gone = rw f at e in absurd (ground arith)
        | inr (a, f) ↦ rw f (address, room, e)
      ]

  connected_member :
      (now : ℕ) (code : String) (host user_id : ℕ) (name : String) (ws : ℕ) (world : World P)
      → IsLinked code world
      → (connect zero is_open now code host user_id name ws world).1 ≡ true
      → has_user user_id (room_of code (connect zero is_open now code host user_id name ws world).2)
        ≡ true
  unfolding connect
  connected_member now code host user_id name ws world linked live =
      let (address, room, there) = ensured_room now code host world linked in
      rw (greet-room_of code _ now _ live)
        (added_member now code user_id name ws address room _ there)

  -- A connection is closed with 4001 if the token names no user, and with 4004 if the database has
  -- no room of the code; nothing changes then. Otherwise it is accepted, and once the greeting went
  -- out the user is a member of the room of the code. (An object that the registry has is on the
  -- heap.)
  pub websocket_room_cases :
      {Token : Type 0} (crypto : Crypto Token) (now : ℕ) (code : String) (token : Token) (ws : ℕ)
      (db : Database) (world : World P)
      → IsLinked code world
      → let (end, world') = websocket_room crypto now code token ws db world in
        ((authenticate_ws crypto now token db ≡ none)
          × (end ≡ Handshake.closed 4001 "Unauthorized")
          × (world' ≡ world))
        ⊎ ((find (is_room code) db.rooms ≡ none)
            × (end ≡ Handshake.closed 4004 "Room not found")
            × (world' ≡ world))
        ⊎ ((user : User) × (s : Session) × (live : Bool) × (authenticate_ws crypto now token db
              ≡ some user)
            × (end ≡ Handshake.accepted s live)
            × (live ≡ true → has_user user.id (room_of code world') ≡ true))
  unfolding websocket_room open_user open_room
  websocket_room_cases crypto now code token ws db world linked =
      elim (Option-cases (authenticate_ws crypto now token db)) [
        | inl e ↦ inl (e, rw e, rw e)
        | inr (user, e) ↦ elim (Option-cases (find (is_room code) db.rooms)) [
          | inl f ↦ inr (inl (f, rw (e, f), rw (e, f)))
          | inr (room_db, f) ↦
              let made =
                connect zero is_open now code room_db.host_user_id user.id user.display_name ws
                  world in
              inr (
                inr (
                  user,
                  made.0,
                  made.1,
                  e,
                  rw (e, f),
                  rw (e, f)
                      (connected_member now code room_db.host_user_id user.id user.display_name ws
                        world linked),
                ))
        ]
      ]
