-- ===== src/WebSocket/Control.antt =====
-- Who controls the playback, and who hosts the room while connections come and go.
use seans.Prelude.{
  ℕ, ◌≡◌, ◌≢◌, refl, Bool, false, Option, none, some, arith, inl, inr, Option-cases, Bool-cases,
  ◌==◌, ==_iff, get_or,
}
use seans.Prelude.Dict.{lookup, lookup-insert, nat_eq}
use seans.Rooms.{RoomState, World, room_at, set_room}
use seans.WebSocket.{Session, Command, send_state_of, touch_member, handle_state, handle_in, handle}

module _ {ℓ} {P : Type ℓ} where
  -- What everybody in a room sees of it.
  abbrev pub playback : Option (RoomState P) → Option (ℕ × P × Bool)
  playback none = none
  playback (some room) = some (room.host_id, room.position, room.is_playing)

  set_room-playback :
      (address a : ℕ) (room' room : RoomState P) (world : World P)
      → room_at a world ≡ some room
      → playback (some room') ≡ playback (some room)
      → playback (room_at address (set_room a room' world)) ≡ playback (room_at address world)
  set_room-playback address a room' room world e same =
      rw (lookup-insert a address room' world.heap) (elim (Bool-cases (a == address)) [
        | inl eq ↦
            let here : room_at address world ≡ some room = rw ((==_iff a address).0 eq) at e in
            rw (eq, here) same
        | inr ne ↦ rw ne refl
      ])

module _ {ℓ} {P : Type ℓ} (zero : P) (is_open : ℕ → Bool) where
  touch_member-playback :
      (user_id : ℕ) (position : P) (now : ℕ) (room : RoomState P)
      → playback (some (touch_member zero is_open user_id position now room)) ≡ playback (some room)
  unfolding touch_member
  touch_member-playback user_id position now room =
      elim (Option-cases (lookup user_id room.members)) [ inl e ↦ rw e | inr (m, e) ↦ rw e ]

  -- Whatever a user sends who does not host the room of the connection, no room in memory changes
  -- its host, its position or whether it plays.
  pub non_host_controls_nothing :
      (s : Session) (command : Command P) (now : ℕ) (world : World P) (room : RoomState P)
      (address : ℕ)
      → room_at s.room world ≡ some room
      → room.host_id ≢ s.user_id
      → playback (room_at address (handle zero is_open s command now world).1)
        ≡ playback (room_at address world)
  unfolding handle handle_in handle_state send_state_of
  non_host_controls_nothing s (Command.heartbeat position) now world room address e h = rw e (
      set_room-playback address s.room _ room world e
        (touch_member-playback s.user_id (get_or position zero) now room))
  non_host_controls_nothing s (Command.state action position) now world room address e h =
      let other : (room.host_id == s.user_id) ≡ false = ground arith in rw (e, other) (ground arith)
  non_host_controls_nothing s Command.join now world room address e h = refl
  non_host_controls_nothing s Command.sync_request now world room address e h = rw e (ground arith)
  non_host_controls_nothing s Command.leave now world room address e h = refl
  non_host_controls_nothing s Command.unknown now world room address e h = refl
