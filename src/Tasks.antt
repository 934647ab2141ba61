-- ===== src/Tasks.antt =====
-- app/routers/tasks.py: a user creates, lists and cancels download tasks.
pub mod Responses
pub mod Create
pub mod Cancel
pub mod Listing
use seans.Prelude.{
  ℕ, String, Bool, not, Option, none, some, List, [], ◌∷◌, ◌++◌, ◌&&◌, ltb, ◌==◌, if◌then◌else◌,
}
use seans.Prelude.Int.{ℤ, pos}
use seans.Http.{Action, http, raise_if, or_raise, pure, gets, commit, ◌>>=◌, ◌>>◌}
use seans.Table.{select, find, exists, order_by}
use seans.Models.{
  Database, User, Task, TaskStatus, LibraryItem, LibraryStatus, TorrentRelease, is_active,
  is_cancelable,
}
use seans.Quota.{check_quota}
use seans.TaskQueue.{save_task}

-- The row that `create_task` adds: what the handler gives, and the defaults of the columns.
abbrev pub new_task : ℕ → ℕ → User → TorrentRelease → Task
new_task id now user release = record {
  id = id;
  user_id = user.id;
  media_item_id = release.media_item_id;
  torrent_release_id = release.id;
  worker_id = none;
  status = TaskStatus.queued;
  priority = pos 0;
  attempts = 0;
  max_attempts = 3;
  reserved_bytes = release.size_bytes;
  progress_pct = pos 0;
  speed_bps = pos 0;
  stage = none;
  error = none;
  lease_expires_at = none;
  created_at = now;
  updated_at = now;
}

abbrev pub new_library_item : ℕ → ℕ → User → TorrentRelease → ℕ → LibraryItem
new_library_item id now user release task_id = record {
  id = id;
  user_id = user.id;
  media_item_id = release.media_item_id;
  source_task_id = some task_id;
  status = LibraryStatus.in_progress;
  created_at = now;
}

-- `LibraryItem.user_id == user_id, LibraryItem.media_item_id == media_item_id`
abbrev pub is_library_item : ℕ → ℕ → LibraryItem → Bool
is_library_item user_id media_item_id item =
    item.user_id == user_id && item.media_item_id == media_item_id

-- Ensure library item exists.
unfoldable pub ensure_library_item : LibraryItem → List LibraryItem → List LibraryItem
ensure_library_item item items =
    if exists (is_library_item item.user_id item.media_item_id) items
    then items
    else items ++ item ∷ []

-- `task_id` and `item_id` are the `uuid4()` of the new rows. The task is flushed by the query for
-- the library item, so the item's `source_task_id` is the task's id.
unfoldable pub create_task : ℕ → ℕ → ℕ → User → ℕ → Action Database Task
create_task task_id item_id now user torrent_release_id = do
  found ← gets (λ db. find (λ r. r.id == torrent_release_id) db.torrent_releases)
  release ← or_raise found (http 404 "Torrent release not found")
  fits ← gets (λ db. check_quota db user.id release.size_bytes now)
  raise_if (not fits) (http 409 "quota_exceeded")
  let task = new_task task_id now user release
  let item = new_library_item item_id now user release task_id
  commit (λ db. record db {
    tasks = db.tasks ++ task ∷ [];
    library_items = ensure_library_item item db.library_items;
  })
  pure task

-- `Task.created_at.desc()`
abbrev pub newer : Task → Task → Bool
newer t u = ltb u.created_at t.created_at

unfoldable pub list_tasks : Bool → User → Database → List Task
list_tasks active user db =
    let own = select (λ t. t.user_id == user.id) db.tasks in
    order_by newer (if active then select (λ t. is_active t.status) own else own)

unfoldable pub cancel_task : User → ℕ → Action Database Task
unfolding save_task
cancel_task user task_id = do
  found ← gets (λ db. find (λ t. t.id == task_id && t.user_id == user.id) db.tasks)
  task ← or_raise found (http 404 "Task not found")
  raise_if (not (is_cancelable task.status)) (http 409 "Cannot cancel task in progress")
  let canceled = record task { status = TaskStatus.canceled; reserved_bytes = pos 0 }
  commit (save_task canceled)
  pure canceled
