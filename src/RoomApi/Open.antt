-- ===== src/RoomApi/Open.antt =====
-- What opening a room leaves in the database and in memory.
use mathlib.Core.List.{Mem}
use text.Mathlib.TextPositions.{eq_refl}
use seans.Prelude.{
  ℕ, ◌≡◌, refl, String, Bool, true, false, none, some, List, [], ◌∷◌, ◌++◌, ◌&&◌, arith, inl, inr,
  ◌==◌, ==_self, Bool-cases, Option-cases,
}
use seans.Prelude.Dict.{lookup-insert, nat_eq, string_eq}
use seans.Prelude.Int.{pos}
use seans.Http.{ok}
use seans.Table.{find, exists}
use seans.Table.Laws.{find-test, find-All, all_mem}
use seans.Models.{Database, User, Room, Task, TaskFile}
use seans.Rooms.{RoomState, World, room_of, create_room, get_room}
use seans.Library.{files_with_tasks}
use seans.RoomApi.{RoomResponse, new_room, is_room, create_room_endpoint}

appended-room :
    (code : String) (room : Room) (rooms : List Room)
    → exists (is_room code) rooms ≡ false
    → is_room code room ≡ true
    → find (is_room code) (rooms ++ room ∷ []) ≡ some room
unfolding exists find
appended-room code room [] h fits = ground arith
appended-room code room (r ∷ rooms) h fits = ground (arith, appended-room code room rooms)

module _ {ℓ} {P : Type ℓ} where
  pub created-room_of :
      (zero : P) (now : ℕ) (code : String) (host_id : ℕ) (world : World P)
      → (room : RoomState P) × (room_of code (create_room zero now code host_id world).1
          ≡ some (world.next, room))
        × (room.host_id ≡ host_id)
        × (room.members ≡ [])
        × (room.is_playing ≡ false)
  unfolding create_room get_room
  created-room_of zero now code host_id world =
      let fresh : RoomState P = record {
        host_id = host_id;
        members = [];
        position = zero;
        is_playing = false;
        updated_at = now;
      } in
      (
        fresh,
        rw (
          lookup-insert code code world.next world.registry,
          eq_refl code,
          lookup-insert world.next world.next fresh world.heap,
          ==_self world.next,
        ),
        refl,
        refl,
        refl,
      )

  -- An accepted request opens one room under its code, in the database and in memory, for a file of
  -- a task of the user: the row is about that file, open, stopped and at the start, the room in
  -- memory is empty and stopped, and the host of both is the user.
  pub create_room_endpoint_opens :
      (zero : P) (now id : ℕ) (code : String) (task_file_id : ℕ) (user : User) (db : Database)
      (world : World P) (r : RoomResponse)
      → (create_room_endpoint zero now id code task_file_id user (db, world)).0 ≡ ok r
      → let (db', world') =
          (create_room_endpoint zero now id code task_file_id user (db, world)).1 in
        (r.code ≡ code)
        × (file : TaskFile) × (task : Task) × Mem (file, task) (files_with_tasks db)
        × (file.id ≡ task_file_id)
        × (task.user_id ≡ user.id)
        × (row : Room) × (find (is_room code) db'.rooms ≡ some row)
        × (row.id ≡ r.id)
        × (row.task_file_id ≡ task_file_id)
        × (row.host_user_id ≡ user.id)
        × (row.current_position ≡ pos 0)
        × (row.is_playing ≡ false)
        × (row.closed_at ≡ none)
        × (address : ℕ) × (room : RoomState P) × (room_of code world' ≡ some (address, room))
        × (room.host_id ≡ row.host_user_id)
        × (room.members ≡ [])
        × (room.is_playing ≡ false)
  unfolding create_room_endpoint
  create_room_endpoint_opens zero now id code task_file_id user db world r h =
      let is_own : TaskFile × Task → Bool = λ f. f.0.id == task_file_id && f.1.user_id == user.id in
      elim (Option-cases (find is_own (files_with_tasks db))) [
        | inl e ↦ absurd (ground arith)
        | inr ((file, task), e) ↦ elim (Bool-cases (exists (is_room code) db.rooms)) [
          | inl taken ↦ let refused = rw (e, taken) at h in absurd (ground arith)
          | inr free ↦
              let (room, there, hosted, empty, stopped) =
                created-room_of zero now code user.id world in
              let answered = rw (e, free) at h in
              let own = find-test is_own (files_with_tasks db) (file, task) e in
              let row = new_room id now code user task_file_id in
              rw (e, free)
                (
                  ground arith,
                  file,
                  task,
                  find-All is_own (λ f. Mem f (files_with_tasks db)) _ _ (all_mem _) e,
                  ground arith,
                  ground arith,
                  row,
                  appended-room code row db.rooms free (eq_refl code),
                  ground arith,
                  refl,
                  refl,
                  refl,
                  refl,
                  refl,
                  world.next,
                  room,
                  there,
                  hosted,
                  empty,
                  stopped,
                )
        ]
      ]
