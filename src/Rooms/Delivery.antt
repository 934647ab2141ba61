-- ===== src/Rooms/Delivery.antt =====
-- Who gets a broadcast, and who is left in a room.
use text.Mathlib.TextPositions.{eq_refl}
use seans.Prelude.{
  ℕ, ◌≡◌, refl, String, Bool, false, not, Option, none, some, [], ◌∷◌, ◌&&◌, ◌++◌, map, arith, inl,
  inr, Option-cases, Bool-cases, is_id, ◌==◌, ==_self,
}
use seans.Prelude.Dict.{
  Dict, lookup, erase, contains, lookup-insert, lookup-erase, nat_eq, string_eq,
}
use seans.Table.{select}
use seans.Rooms.{
  Member, RoomState, Message, World, room_of, room_at, set_room, get_room, remove_room, deliveries,
  settle_host, remove_member, broadcast,
}

module _ {ℓ} {P : Type ℓ} where
  -- The members that a broadcast is for: all but the excluded user, where the socket is open.
  abbrev pub is_recipient : (ℕ → Bool) → Option ℕ → ℕ × Member P → Bool
  is_recipient is_open exclude (uid, member) = not (is_id exclude uid) && is_open member.ws

  deliveries-select :
      (is_open : ℕ → Bool) (message : Message P) (exclude : Option ℕ) (members : Dict ℕ (Member P))
      → deliveries is_open message exclude members
        ≡ map (λ r. (r.1.ws, message)) (select (is_recipient is_open exclude) members)
  unfolding deliveries select
  deliveries-select is_open message exclude [] = refl
  deliveries-select is_open message exclude ((uid, member) ∷ members) =
      ground (arith, deliveries-select is_open message exclude members)

  -- A broadcast sends the message once to each member of the code's room whose socket is open, in
  -- the order in which they joined, and not to the excluded user; it changes no room.
  pub broadcast_sends :
      (is_open : ℕ → Bool) (code : String) (message : Message P) (exclude : Option ℕ)
      (world : World P) (address : ℕ) (room : RoomState P)
      → room_of code world ≡ some (address, room)
      → broadcast is_open code message exclude world ≡ record world {
        sent =
            world.sent
            ++ map (λ r. (r.1.ws, message)) (select (is_recipient is_open exclude) room.members);
      }
  unfolding broadcast
  broadcast_sends is_open code message exclude world address room e =
      rw (e, deliveries-select is_open message exclude room.members)

  -- Whether a user is in the room of a code.
  abbrev pub has_user : ℕ → Option (ℕ × RoomState P) → Bool
  has_user user_id none = false
  has_user user_id (some (address, room)) = contains user_id room.members

  pub set_room-room_of :
      (code : String) (address : ℕ) (old room : RoomState P) (world : World P)
      → room_of code world ≡ some (address, old)
      → room_of code (set_room address room world) ≡ some (address, room)
  unfolding get_room
  set_room-room_of code address old room world e =
      elim (Option-cases (lookup code world.registry)) [
        | inl f ↦ absurd (ground arith)
        | inr (a, f) ↦ elim (Option-cases (room_at a world)) [
          | inl g ↦ absurd (ground arith)
          | inr (r, g) ↦ rw f (ground (arith, lookup-insert address a room world.heap))
        ]
      ]

  settle_host_leaves :
      (code : String) (user_id address : ℕ) (room : RoomState P) (world : World P)
      (rest : Dict ℕ (Member P))
      → room_of code world ≡ some (address, room)
      → contains user_id rest ≡ false
      → has_user user_id (room_of code (settle_host code user_id address room rest world).1) ≡ false
  unfolding settle_host remove_room get_room
  settle_host_leaves code user_id address room world [] e left =
      rw (lookup-erase code code world.registry, eq_refl)
  settle_host_leaves code user_id address room world ((uid, m) ∷ rest) e left =
      elim (Bool-cases (room.host_id == user_id)) [
        | inl host ↦ rw (host, set_room-room_of code address room _ world e) left
        | inr other ↦ rw (other, set_room-room_of code address room _ world e) left
      ]

  -- After `remove_member` the user is not in the room of the code: the room has other members, or
  -- the registry has dropped it.
  remove_member_leaves :
      (code : String) (user_id : ℕ) (world : World P)
      → has_user user_id (room_of code (remove_member code user_id world).1) ≡ false
  unfolding remove_member
  remove_member_leaves code user_id world = elim (Option-cases (room_of code world)) [
    | inl e ↦ rw (e, e)
    | inr ((address, room), e) ↦ elim (Bool-cases (contains user_id room.members)) [
      | inl here ↦
          rw (e, here)
            (settle_host_leaves code user_id address room world (erase user_id room.members) e
              (ground (arith, lookup-erase user_id user_id room.members, ==_self user_id)))
      | inr gone ↦ rw (e, gone, e, gone)
    ]
  ]
