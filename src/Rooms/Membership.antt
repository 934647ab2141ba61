-- ===== src/Rooms/Membership.antt =====
-- Who is in a room, and who hosts it.
use text.Mathlib.TextPositions.{eq_refl}
use seans.Prelude.{
  ℕ, ◌≡◌, refl, String, true, false, Option, none, some, [], ◌∷◌, arith, inl, inr, Option-cases,
  Bool-cases, ◌==◌, ==_iff,
}
use seans.Prelude.Dict.{
  Dict, lookup, erase, contains, lookup-insert, lookup-erase, nat_eq, string_eq,
}
use seans.Rooms.{
  Member, RoomState, World, room_of, room_at, at_address, set_room, get_room, remove_room,
  new_member, add_member, settle_host, remove_member,
}

module _ {ℓ} {P : Type ℓ} where
  -- The host is among the members.
  abbrev pub IsHosted : RoomState P → Type 0
  IsHosted room = contains room.host_id room.members ≡ true

  abbrev pub Hosted : Option (ℕ × RoomState P) → Type 0
  Hosted none = Unit
  Hosted (some (address, room)) = IsHosted room

  -- The room of the code, if the registry has it, has its host among the members.
  abbrev pub HostPresent : String → World P → Type 0
  HostPresent code world = Hosted (room_of code world)

  -- Writing an object that keeps its host does so for every code, also where two codes name it.
  pub set_room-HostPresent :
      (code : String) (address : ℕ) (room : RoomState P) (world : World P)
      → IsHosted room
      → HostPresent code world
      → HostPresent code (set_room address room world)
  unfolding get_room
  set_room-HostPresent code address room world kept h =
      elim (Option-cases (lookup code world.registry)) [
        | inl e ↦ rw e tt
        | inr (a, e) ↦ rw e (ground (arith, lookup-insert address a room world.heap, h))
      ]

  -- So does a change of an object that keeps its host whenever it had one.
  pub set_room-keeps-HostPresent :
      (code : String) (address : ℕ) (room room' : RoomState P) (world : World P)
      → room_at address world ≡ some room
      → (IsHosted room → IsHosted room')
      → HostPresent code world
      → HostPresent code (set_room address room' world)
  unfolding get_room
  set_room-keeps-HostPresent code address room room' world there keep h =
      elim (Option-cases (lookup code world.registry)) [
        | inl e ↦ rw e tt
        | inr (a, e) ↦ elim (Bool-cases (address == a)) [
          | inl eq ↦
              let same = (==_iff address a).0 eq in
              let here : room_at a world ≡ some room = rw same at there in
              let old : Hosted (at_address a (room_at a world)) = rw e at h in
              let hosted : IsHosted room = rw here at old in
              rw (e, lookup-insert address a room' world.heap, eq) (keep hosted)
          | inr ne ↦ rw (e, lookup-insert address a room' world.heap, ne) (rw e at h)
        ]
      ]

  first_member :
      (uid : ℕ) (m : Member P) (rest : Dict ℕ (Member P)) → contains uid ((uid, m) ∷ rest) ≡ true
  unfolding lookup
  first_member uid m rest = ground arith

  still_member :
      (host user_id : ℕ) (members : Dict ℕ (Member P)) {left : Dict ℕ (Member P)}
      → erase user_id members ≡ left
      → (host == user_id) ≡ false
      → contains host members ≡ true
      → contains host left ≡ true
  still_member host user_id members e other kept =
      rw (← e) (ground (arith, lookup-erase user_id host members))

  settle_host-HostPresent :
      (code : String) (user_id address : ℕ) (room : RoomState P) (world : World P)
      → HostPresent code world
      → IsHosted room
      → HostPresent code
          (settle_host code user_id address room (erase user_id room.members) world).1
  unfolding settle_host remove_room get_room
  settle_host-HostPresent code user_id address room world h kept =
      by_rest (erase user_id room.members) refl
    where
      by_rest :
          (rest : Dict ℕ (Member P))
          → erase user_id room.members ≡ rest
          → HostPresent code (settle_host code user_id address room rest world).1
      by_rest [] e = rw (lookup-erase code code world.registry, eq_refl) tt
      by_rest ((uid, m) ∷ rest) e = elim (Bool-cases (room.host_id == user_id)) [
        | inl left ↦ rw left (set_room-HostPresent code address _ world (first_member uid m rest) h)
        | inr other ↦ rw other (
            set_room-HostPresent code address _ world
              (still_member room.host_id user_id room.members e other kept) h)
      ]

  -- A removal keeps a member as the host: if the room of the code, where the registry has one, has
  -- its host among the members, then so it is after any user was removed.
  pub remove_member-HostPresent :
      (code : String) (user_id : ℕ) (world : World P)
      → HostPresent code world
      → HostPresent code (remove_member code user_id world).1
  unfolding remove_member
  remove_member-HostPresent code user_id world h = elim (Option-cases (room_of code world)) [
    | inl e ↦ rw e h
    | inr ((address, room), e) ↦ elim (Bool-cases (contains user_id room.members)) [
      | inl here ↦
          rw (e, here) (settle_host-HostPresent code user_id address room world h (rw e at h))
      | inr gone ↦ rw (e, gone) h
    ]
  ]

  pub add_member-HostPresent :
      (zero : P) (now : ℕ) (code : String) (user_id : ℕ) (name : String) (ws : ℕ) (world : World P)
      → HostPresent code world
      → HostPresent code (add_member zero now code user_id name ws world)
  unfolding add_member
  add_member-HostPresent zero now code user_id name ws world h =
      elim (Option-cases (room_of code world)) [
        | inl e ↦ rw e h
        | inr ((address, room), e) ↦ rw e (
            set_room-HostPresent code address _ world
              (let here : IsHosted room = rw e at h in
                ground (
                  arith,
                  lookup-insert user_id room.host_id (new_member zero now user_id name ws)
                      room.members,
                ))
              h)
      ]
