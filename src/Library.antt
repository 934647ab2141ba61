-- ===== src/Library.antt =====
-- app/routers/library.py: a user's library, and the download links of its files. `presign_get` is
-- app/services/s3.py's call of boto3.
pub mod Files
use seans.Prelude.{
  ℕ, String, Bool, true, false, not, Option, none, some, List, [], ◌∷◌, ◌&&◌, ◌||◌, map, ltb, ◌==◌,
  str_eq, if◌then◌else◌,
}
use seans.Prelude.Int.{ℤ}
use seans.Http.{Action, http, or_raise, raise_if, pure, gets, ◌>>=◌, ◌>>◌}
use seans.Table.{select, find, sum_by, order_by, join}
use seans.Models.{
  Database, User, Task, TaskFile, MediaItem, LibraryItem, LibraryStatus, is_uploaded,
}

-- An entry of the library: `library_item`, `media_item`, `files`, `total_size` and `ready`.
pub record LibraryEntry : Type 0 where
  pub library_item : LibraryItem
  pub media_item : MediaItem
  pub files : List TaskFile
  pub total_size : ℤ
  pub ready : Bool

-- `.join(Task, Task.id == TaskFile.task_id)`
abbrev pub files_with_tasks : Database → List (TaskFile × Task)
files_with_tasks db = join (λ file task. task.id == file.task_id) db.task_files db.tasks

-- Get files for this library item.
unfoldable pub item_files : Database → ℕ → ℕ → List TaskFile
item_files db user_id media_item_id =
    map (λ r. r.0)
      (select
        (λ r.
          r.1.user_id == user_id && r.1.media_item_id == media_item_id && is_uploaded r.0.status)
        (files_with_tasks db))

-- `== "ready"`
abbrev pub is_ready : LibraryStatus → Bool
is_ready LibraryStatus.ready = true
is_ready LibraryStatus.in_progress = false

unfoldable pub library_entry : Database → User → LibraryItem × MediaItem → LibraryEntry
unfolding item_files
library_entry db user (lib_item, media_item) =
    let files = item_files db user.id lib_item.media_item_id in
    record {
      library_item = lib_item;
      media_item = media_item;
      files = files;
      total_size = sum_by (λ f. f.size_bytes) files;
      ready = is_ready lib_item.status;
    }

-- `LibraryItem.created_at.desc()`
abbrev pub newer_entry : LibraryItem × MediaItem → LibraryItem × MediaItem → Bool
newer_entry r s = ltb s.0.created_at r.0.created_at

unfoldable pub get_library : User → Database → List LibraryEntry
unfolding library_entry
get_library user db = map (library_entry db user) (
    order_by newer_entry (
      select (λ r. r.0.user_id == user.id)
        (join (λ item media. media.id == item.media_item_id) db.library_items db.media_items)))

-- `tf.s3_key`, where a null and an empty text are both false.
abbrev pub usable_key : Option String → Option String
usable_key none = none
usable_key (some key) = if str_eq key "" then none else some key

-- `if tf.status != "uploaded" or not tf.s3_key: raise …`: the key of a file to download.
unfoldable pub download_key : TaskFile → Option String
download_key file = if is_uploaded file.status then usable_key file.s3_key else none

-- The URL; it expires in 86400 seconds.
unfoldable pub get_file_url : (String → String) → ℕ → User → Action Database (String × ℕ)
get_file_url presign_get task_file_id user = do
  row ←
      gets
        (λ db. find (λ r. r.0.id == task_file_id && r.1.user_id == user.id) (files_with_tasks db))
  found ← or_raise row (http 404 "File not found")
  key ← or_raise (download_key found.0) (http 404 "File not yet uploaded")
  pure (presign_get key, 86400)
