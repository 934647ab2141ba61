-- ===== src/WebSocket/Hosting.antt =====
-- The host of a room while connections come, talk and go.
use mathlib.Core.Path.{subst}
use seans.Prelude.{
  sym, ℕ, ◌≡◌, String, Bool, Option, none, some, arith, inl, inr, Option-cases, Bool-cases, ◌==◌,
  get_or, str_eq, ◌||◌,
}
use seans.Prelude.Dict.{lookup, lookup-insert, nat_eq}
use seans.Rooms.{RoomState, Message, World, room_at, room_of, get_room, broadcast, add_member}
use seans.Rooms.Membership.{
  IsHosted, HostPresent, set_room-keeps-HostPresent, remove_member-HostPresent,
  add_member-HostPresent,
}
use seans.WebSocket.{
  Session, Command, send, whole_seconds, send_state_of, announce_host, disconnect, control,
  touch_member, handle_state, handle_in, handle,
}

module _ {ℓ} {P : Type ℓ} (zero : P) (is_open : ℕ → Bool) where
  broadcast-HostPresent :
      (code code' : String) (message : Message P) (exclude : Option ℕ) (world : World P)
      → HostPresent code world
      → HostPresent code (broadcast is_open code' message exclude world)
  unfolding broadcast get_room
  broadcast-HostPresent code code' message exclude world h =
      elim (Option-cases (room_of code' world)) [
        | inl e ↦ rw e h
        | inr ((address, room), e) ↦ rw e h
      ]

  send-HostPresent :
      (code : String) (ws : ℕ) (message : Message P) (world : World P)
      → HostPresent code world
      → HostPresent code (send is_open ws message world).1
  unfolding get_room
  send-HostPresent code ws message world h = elim (Bool-cases (is_open ws)) [
    | inl e ↦ rw e h
    | inr e ↦ rw e h
  ]

  announce_host-HostPresent :
      (code : String) (s : Session) (now : ℕ) (host : Option ℕ) (world : World P)
      → HostPresent code world
      → HostPresent code (announce_host zero is_open s now host world)
  unfolding announce_host
  announce_host-HostPresent code s now none world h = h
  announce_host-HostPresent code s now (some host) world h =
      elim (Option-cases (room_of s.code world)) [
        | inl e ↦ rw e h
        | inr ((address, room), e) ↦ rw e (broadcast-HostPresent code s.code _ none world h)
      ]

  disconnect-HostPresent :
      (s : Session) (now : ℕ) (world : World P)
      → HostPresent s.code world
      → HostPresent s.code (disconnect zero is_open s now world)
  unfolding disconnect
  disconnect-HostPresent s now world h = announce_host-HostPresent s.code s now _ _ (
      broadcast-HostPresent s.code s.code _ none _
        (remove_member-HostPresent s.code s.user_id world h))

  touch_member-IsHosted :
      (user_id : ℕ) (position : P) (now : ℕ) (room : RoomState P)
      → IsHosted room
      → IsHosted (touch_member zero is_open user_id position now room)
  unfolding touch_member
  touch_member-IsHosted user_id position now room h =
      elim (Option-cases (lookup user_id room.members)) [
        | inl e ↦ rw e h
        | inr (m, e) ↦ rw e (
            ground (
              arith,
              lookup-insert user_id room.host_id (record m { position = position; last_seen = now })
                  room.members,
            ))
      ]

  control-IsHosted :
      (action : Option String) (position : P) (now : ℕ) (room : RoomState P)
      → IsHosted room
      → IsHosted (control zero is_open action position now room)
  unfolding control
  control-IsHosted none position now room h = h
  control-IsHosted (some action) position now room h =
      elim (Bool-cases (str_eq action "play" || str_eq action "pause")) [
        | inl e ↦ rw e h
        | inr e ↦
            rw e (elim (Bool-cases (str_eq action "seek")) [ inl f ↦ rw f h | inr f ↦ rw f h ])
      ]

  handle_state-HostPresent :
      (code : String) (s : Session) (action : Option String) (position : Option P) (now : ℕ)
      (room : RoomState P) (world : World P)
      → room_at s.room world ≡ some room
      → HostPresent code world
      → HostPresent code (handle_state zero is_open s action position now room world).1
  unfolding handle_state
  handle_state-HostPresent code s action position now room world e h =
      elim (Bool-cases (room.host_id == s.user_id)) [
        | inl host ↦ rw host (
            broadcast-HostPresent code s.code _ (some s.user_id) _ (
              set_room-keeps-HostPresent code s.room room _ world e
                (control-IsHosted action (get_or position room.position) now room) h))
        | inr other ↦ rw other (send-HostPresent code s.ws _ world h)
      ]

  -- A message keeps the host of every room, whichever room the connection holds.
  handle-HostPresent :
      (code : String) (s : Session) (command : Command P) (now : ℕ) (world : World P)
      → HostPresent code world
      → HostPresent code (handle zero is_open s command now world).1
  unfolding handle handle_in send_state_of
  handle-HostPresent code s Command.join now world h = h
  handle-HostPresent code s Command.leave now world h = h
  handle-HostPresent code s Command.unknown now world h = h
  handle-HostPresent code s Command.sync_request now world h =
      elim (Option-cases (room_at s.room world)) [
        | inl e ↦ rw e h
        | inr (room, e) ↦ rw e (
            send-HostPresent code s.ws
              (Message.room_state room.host_id room.position room.is_playing
                (whole_seconds zero is_open now))
              world h)
      ]
  handle-HostPresent code s (Command.heartbeat position) now world h =
      elim (Option-cases (room_at s.room world)) [
        | inl e ↦ rw e h
        | inr (room, e) ↦ rw e (
            set_room-keeps-HostPresent code s.room room _ world e
              (touch_member-IsHosted s.user_id (get_or position zero) now room) h)
      ]
  handle-HostPresent code s (Command.state action position) now world h =
      elim (Option-cases (room_at s.room world)) [
        | inl e ↦ rw e h
        | inr (room, e) ↦ rw e (handle_state-HostPresent code s action position now room world e h)
      ]

  -- What can happen to the room of a code that the registry has: a user joins, a connection to any
  -- room sends a message, or a connection to this one ends.
  pub data Step (code : String) : World P → World P → Type ℓ where
    joins :
        (now user_id : ℕ) (name : String) (ws : ℕ) (world : World P)
        → Step code world (add_member zero now code user_id name ws world)
    sends :
        (s : Session) (command : Command P) (now : ℕ) (world : World P)
        → Step code world (handle zero is_open s command now world).1
    leaves :
        (s : Session) (now : ℕ) (world : World P)
        → s.code ≡ code
        → Step code world (disconnect zero is_open s now world)

  pub data Reach (code : String) (start : World P) : World P → Type ℓ where
    here : Reach code start start
    next :
        {before after : World P}
        → Reach code start before
        → Step code before after
        → Reach code start after

  Step-HostPresent :
      {code : String} {before after : World P}
      → Step code before after
      → HostPresent code before
      → HostPresent code after
  Step-HostPresent {code} (joins now user_id name ws world) h =
      add_member-HostPresent zero now code user_id name ws world h
  Step-HostPresent {code} (sends s command now world) h =
      handle-HostPresent code s command now world h
  Step-HostPresent (leaves s now world e) h =
      subst (λ c. HostPresent c (disconnect zero is_open s now world)) e
        (disconnect-HostPresent s now world (subst (λ c. HostPresent c world) (sym e) h))

  -- Once the host of a room is among its members, the host is among them after any joins, messages
  -- of any connection and departures, for as long as the registry has the room.
  pub Reach-HostPresent :
      (code : String) (start world : World P)
      → HostPresent code start
      → Reach code start world
      → HostPresent code world
  Reach-HostPresent code start world h r = by_reach r
    where
      by_reach : {w : World P} → Reach code start w → HostPresent code w
      by_reach here = h
      by_reach (next r st) = Step-HostPresent st (by_reach r)
