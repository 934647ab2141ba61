-- ===== src/Tasks/Create.antt =====
-- `create_task`: what it reserves, and what it refuses.
use mathlib.Core.List.{Mem, mem-cons_self, mem-cons_of_mem}
use seans.Prelude.{
  refl, List, ℕ, ◌≡◌, ◌≢◌, ◌⊎◌, true, false, none, some, [], ◌∷◌, ◌++◌, All, arith, inl, inr, ◌==◌,
  Option-cases, Bool-cases, ==_self,
}
use seans.Prelude.Int.{◌+ℤ◌, ◌≤ℤ◌, int_laws}
use seans.Http.{ok, raise, http}
use seans.Table.{find, exists}
use seans.Models.{Database, User, Task, TorrentRelease, TaskStatus, LibraryItem, LibraryStatus}
use seans.Quota.{get_used_bytes, get_reserved_bytes, get_effective_quota_bytes, check_quota}
use seans.Quota.Sums.{
  get_used_bytes-append, get_reserved_bytes-append, check_quota-true, check_quota-false,
}
use seans.Tasks.{new_task, new_library_item, is_library_item, ensure_library_item, create_task}

-- The task of a release for a user, with all its attempts left, no worker yet, and the size of the
-- release reserved.
abbrev pub IsQueuedFor : User → TorrentRelease → Task → Type 0
IsQueuedFor user r t =
    (t.user_id ≡ user.id)
    × (t.media_item_id ≡ r.media_item_id)
    × (t.torrent_release_id ≡ r.id)
    × (t.status ≡ TaskStatus.queued)
    × (t.worker_id ≡ none)
    × (t.lease_expires_at ≡ none)
    × (t.attempts ≡ 0)
    × (t.max_attempts ≡ 3)
    × (t.reserved_bytes ≡ r.size_bytes)

-- The item of a medium in the library of a user.
abbrev pub IsItemOf : User → TorrentRelease → LibraryItem → Type 0
IsItemOf user r item = (item.user_id ≡ user.id) × (item.media_item_id ≡ r.media_item_id)

-- The library has the medium already, or it gets an item in progress that names the task.
abbrev pub IsEnsured : User → TorrentRelease → ℕ → List LibraryItem → List LibraryItem → Type 0
IsEnsured user r task_id items items' =
    ((item : LibraryItem) × Mem item items × IsItemOf user r item × (items' ≡ items))
    ⊎ (All (λ item. ¬ IsItemOf user r item) items
        × (item : LibraryItem) × (items' ≡ items ++ item ∷ [])
        × IsItemOf user r item
        × (item.source_task_id ≡ some task_id)
        × (item.status ≡ LibraryStatus.in_progress))

is_library_item-IsItemOf :
    (user : User) (r : TorrentRelease) (item : LibraryItem)
    → is_library_item user.id r.media_item_id item ≡ true
    → IsItemOf user r item
is_library_item-IsItemOf user r item h = (ground arith, ground arith)

item_there :
    (user : User) (r : TorrentRelease) (items : List LibraryItem)
    → exists (is_library_item user.id r.media_item_id) items ≡ true
    → (item : LibraryItem) × Mem item items × IsItemOf user r item
unfolding exists
item_there user r [] h = absurd (ground arith)
item_there user r (item ∷ items) h =
    elim (Bool-cases (is_library_item user.id r.media_item_id item)) [
      | inl own ↦ (item, mem-cons_self, is_library_item-IsItemOf user r item own)
      | inr other ↦
          let (found, there, own) = item_there user r items (ground arith) in
          (found, mem-cons_of_mem item there, own)
    ]

no_item_there :
    (user : User) (r : TorrentRelease) (items : List LibraryItem)
    → exists (is_library_item user.id r.media_item_id) items ≡ false
    → All (λ item. ¬ IsItemOf user r item) items
unfolding exists
no_item_there user r [] h = tt
no_item_there user r (item ∷ items) h =
    (λ (own, medium). ground arith, no_item_there user r items (ground arith))

ensure_library_item-IsEnsured :
    (id now task_id : ℕ) (user : User) (r : TorrentRelease) (items : List LibraryItem)
    → IsEnsured user r task_id items
        (ensure_library_item (new_library_item id now user r task_id) items)
unfolding ensure_library_item
ensure_library_item-IsEnsured id now task_id user r items =
    let item = new_library_item id now user r task_id in
    elim (Bool-cases (exists (is_library_item user.id r.media_item_id) items)) [
      | inl there ↦
          let (found, is_in, own) = item_there user r items there in
          rw there (inl (found, is_in, own, refl))
      | inr free ↦
          rw free (inr (no_item_there user r items free, item, refl, (refl, refl), refl, refl))
    ]

module _ (task_id item_id now : ℕ) (user : User) (release_id : ℕ) (db : Database) where
  -- An accepted request leaves the user within the quota: with the new task, what is used and what
  -- is reserved fit the limit that applies at that time. The id of the task is new to the files.
  pub create_task_within_quota :
      (t : Task)
      → (create_task task_id item_id now user release_id db).0 ≡ ok t
      → All (λ f. f.task_id ≢ task_id) db.task_files
      → let db' = (create_task task_id item_id now user release_id db).1 in
        (row : User) × (find (λ u. u.id == user.id) db'.users ≡ some row)
        × (get_used_bytes db' user.id +ℤ get_reserved_bytes db' user.id
            ≤ℤ get_effective_quota_bytes row now)
  unfolding create_task
  create_task_within_quota t h fresh =
      elim (Option-cases (find (λ r. r.id == release_id) db.torrent_releases)) [
        | inl e ↦ absurd (ground arith)
        | inr (r, e) ↦ elim (Bool-cases (check_quota db user.id r.size_bytes now)) [
          | inl fits ↦
              let (row, found, within) = check_quota-true db user.id r.size_bytes now fits in
              let task = new_task task_id now user r in
              rw (e, fits)
                (
                  row,
                  found,
                  rw
                      (
                        get_used_bytes-append db user.id task _ fresh,
                        get_reserved_bytes-append db user.id task,
                        ==_self user.id,
                      )
                      (omega int_laws),
                )
          | inr over ↦ absurd (ground arith)
        ]
      ]

  -- A request for an unknown release, or for one whose size does not fit what the limit of the user
  -- leaves beside the used and the reserved bytes, is refused and changes nothing. Any other one adds
  -- a queued task for that release, with its size reserved, three attempts and no worker, sees to an
  -- item of the medium in the library of the user, and changes nothing else.
  pub create_task_cases :
      ((find (λ r. r.id == release_id) db.torrent_releases ≡ none)
        × (create_task task_id item_id now user release_id db
            ≡ (raise (http 404 "Torrent release not found"), db)))
      ⊎ ((r : TorrentRelease) × (find (λ r. r.id == release_id) db.torrent_releases ≡ some r)
          × ((row : User)
              → find (λ u. u.id == user.id) db.users ≡ some row
              → ¬ (
                  get_used_bytes db user.id +ℤ get_reserved_bytes db user.id +ℤ r.size_bytes
                  ≤ℤ get_effective_quota_bytes row now))
          × (create_task task_id item_id now user release_id db
              ≡ (raise (http 409 "quota_exceeded"), db)))
      ⊎ ((r : TorrentRelease) × (find (λ r. r.id == release_id) db.torrent_releases ≡ some r)
          × (row : User) × (find (λ u. u.id == user.id) db.users ≡ some row)
          × (get_used_bytes db user.id +ℤ get_reserved_bytes db user.id +ℤ r.size_bytes
              ≤ℤ get_effective_quota_bytes row now)
          × (t : Task) × (items : List LibraryItem) × (t.id ≡ task_id)
          × IsQueuedFor user r t
          × IsEnsured user r task_id db.library_items items
          × (create_task task_id item_id now user release_id db
              ≡ (ok t, record db { tasks = db.tasks ++ t ∷ []; library_items = items })))
  unfolding create_task
  create_task_cases = elim (Option-cases (find (λ r. r.id == release_id) db.torrent_releases)) [
    | inl e ↦ inl (e, rw e)
    | inr (r, e) ↦ elim (Bool-cases (check_quota db user.id r.size_bytes now)) [
      | inl fits ↦
          let (row, found, within) = check_quota-true db user.id r.size_bytes now fits in
          inr (
            inr (
              r,
              e,
              row,
              found,
              within,
              new_task task_id now user r,
              ensure_library_item (new_library_item item_id now user r task_id) db.library_items,
              refl,
              (refl, refl, refl, refl, refl, refl, refl, refl, refl),
              ensure_library_item-IsEnsured item_id now task_id user r db.library_items,
              rw (e, fits),
            ))
      | inr over ↦
          inr (inl (r, e, check_quota-false db user.id r.size_bytes now over, rw (e, over)))
    ]
  ]
