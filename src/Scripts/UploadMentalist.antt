-- ===== src/Scripts/UploadMentalist.antt =====
-- scripts/upload_mentalist.py: the episodes that it uploads to S3 (boto3, not modelled) and the SQL
-- that it prints, each statement as what it does to the tables: the foreign keys and the unique
-- constraints that it can violate refuse it. `int` is Python's, of a text; `str_uuid` is `str` of a
-- UUID. The files are given in their order, with what `pathlib` says of them.
pub mod Refused
use Prim.Native.Char.{Char}
use seans.Prelude.{
  ℕ, zero, suc, String, Bool, true, false, Option, none, some, List, [], ◌∷◌, ◌++◌, ◌&&◌, not, ◌==◌,
  str_eq, chars, text_of, concat, if◌then◌else◌,
}
use seans.Prelude.Int.{ℤ, pos}
use seans.Prelude.Options.{◌>>=◌, map_all}
use seans.Table.{exists, upsert}
use seans.Models.{
  Database, MediaItem, KpType, LibraryItem, LibraryStatus, Task, TaskStatus, TaskFile, FileStatus,
}
use seans.Schema.{given}
use seans.Regex.{same}
use seans.Kinopoisk.{has_kp_id}
use seans.Tasks.{is_library_item}

-- What the script knows of a file of `SEASON_DIR`, and its entry in `task_files`.
pub record LocalFile : Type 0 where
  pub name : String
  pub stem : String
  pub size : ℤ

pub record Entry : Type 0 where
  pub path : String
  pub s3_key : String
  pub size_bytes : ℤ
  pub episode : ℤ

-- The UUIDs that the script draws, with the stub for a release, and the user that it names.
pub record Ids : Type 0 where
  pub media_item_id : ℕ
  pub user_id : ℕ
  pub task_id : ℕ
  pub library_item_id : ℕ
  pub torrent_release_id : ℕ
  pub file_ids : ℕ → ℕ

abbrev pub kp_id : ℤ
kp_id = pos 395999

-- `name.split("_")[0]`
abbrev pub before_underscore : List Char → List Char
before_underscore [] = []
before_underscore (c ∷ cs) =
    let rest = before_underscore cs in if str_eq (text_of (c ∷ [])) "_" then [] else c ∷ rest

-- `ep_part[4:]`
abbrev pub from_fourth : List Char → List Char
from_fourth (a ∷ b ∷ c ∷ d ∷ cs) = cs
from_fourth _ = []

module _ (int : String → Option ℤ) (str_uuid : ℕ → String) (ids : Ids) where
  unfoldable pub entry_of : LocalFile → Option Entry
  entry_of f = do
    episode ← int (text_of (from_fourth (before_underscore (chars f.stem))))
    some (record {
      path = f.name;
      s3_key =
          concat (
            "users/" ∷ str_uuid ids.user_id ∷ "/" ∷ str_uuid ids.media_item_id ∷ "/" ∷ f.name ∷ []);
      size_bytes = f.size;
      episode = episode;
    })

  -- The loop over the files; an episode that is no number ends the script.
  unfoldable pub task_files : List LocalFile → Option (List Entry)
  unfolding entry_of
  task_files files = map_all entry_of files

module _ (ids : Ids) (now : ℕ) where
  abbrev pub mentalist : MediaItem
  mentalist = record {
    id = ids.media_item_id;
    kp_id = some kp_id;
    tmdb_id = none;
    kp_type = KpType.tv;
    title = "Менталист";
    original_title = some "The Mentalist";
    year = some (pos 2008);
    poster_url = some "https://st.kp.yandex.net/images/film_iphone/iphone360_395999.jpg";
    overview =
        some
          "Патрик Джейн — бывший экстрасенс-шарлатан, который после трагической гибели семьи начинает помогать полиции Калифорнии в раскрытии преступлений, используя свои навыки наблюдения и манипуляции.";
    rating_kp = some (pos 82);
    genres = "детектив" ∷ "драма" ∷ "комедия" ∷ "криминал" ∷ [];
    raw = "{}";
    updated_at = now;
  }

  -- 1. `ON CONFLICT (kp_id) DO UPDATE SET title = …, updated_at = NOW()`
  unfoldable pub insert_media : Database → Option Database
  unfolding upsert
  insert_media db = some (record db {
    media_items =
        upsert (has_kp_id (some kp_id))
          (λ row. record row { title = "Менталист"; updated_at = now }) mentalist db.media_items;
  })

  abbrev pub ready_item : LibraryItem
  ready_item = record {
    id = ids.library_item_id;
    user_id = ids.user_id;
    media_item_id = ids.media_item_id;
    source_task_id = some ids.task_id;
    status = LibraryStatus.ready;
    created_at = now;
  }

  -- 2. `ON CONFLICT (user_id, media_item_id) DO NOTHING`
  unfoldable pub insert_library_item : Database → Option Database
  unfolding exists
  insert_library_item db =
      if exists (is_library_item ids.user_id ids.media_item_id) db.library_items
      then some db
      else given
          (exists (λ u. u.id == ids.user_id) db.users
            && exists (λ m. m.id == ids.media_item_id) db.media_items
            && exists (λ t. t.id == ids.task_id) db.tasks)
          (some (record db { library_items = db.library_items ++ ready_item ∷ [] }))

  abbrev pub completed_task : Task
  completed_task = record {
    id = ids.task_id;
    user_id = ids.user_id;
    media_item_id = ids.media_item_id;
    torrent_release_id = ids.torrent_release_id;
    worker_id = none;
    status = TaskStatus.completed;
    priority = pos 0;
    attempts = 0;
    max_attempts = 3;
    reserved_bytes = pos 0;
    progress_pct = pos 100;
    speed_bps = pos 0;
    stage = none;
    error = none;
    lease_expires_at = none;
    created_at = now;
    updated_at = now;
  }

  -- 3.
  unfoldable pub insert_task : Database → Option Database
  unfolding exists
  insert_task db =
      given
        (exists (λ u. u.id == ids.user_id) db.users
          && exists (λ m. m.id == ids.media_item_id) db.media_items
          && exists (λ r. r.id == ids.torrent_release_id) db.torrent_releases
          && not (exists (λ t. t.id == ids.task_id) db.tasks))
        (some (record db { tasks = db.tasks ++ completed_task ∷ [] }))

  abbrev pub uploaded_file : ℕ → Entry → TaskFile
  uploaded_file id tf = record {
    id = id;
    task_id = ids.task_id;
    path = tf.path;
    size_bytes = tf.size_bytes;
    s3_key = some tf.s3_key;
    status = FileStatus.uploaded;
    season = some (pos 1);
    episode = some tf.episode;
    uploaded_at = some now;
  }

  -- 4., for each entry.
  unfoldable pub insert_file : ℕ → Entry → Database → Option Database
  unfolding exists
  insert_file id tf db =
      given
        (exists (λ t. t.id == ids.task_id) db.tasks
          && not (exists (λ f. f.task_id == ids.task_id && str_eq f.path tf.path) db.task_files))
        (some (record db { task_files = db.task_files ++ uploaded_file id tf ∷ [] }))

  unfoldable pub file_statements : ℕ → List Entry → List (Database → Option Database)
  unfolding insert_file
  file_statements n [] = []
  file_statements n (tf ∷ entries) =
      insert_file (ids.file_ids n) tf ∷ file_statements (suc n) entries

  -- What is printed, to be run in order.
  unfoldable pub statements : List Entry → List (Database → Option Database)
  unfolding file_statements insert_media insert_library_item insert_task
  statements entries = insert_media ∷ insert_library_item ∷ insert_task ∷ file_statements 0 entries

-- Each statement is a transaction; one that is refused changes nothing, and the next one runs.
unfoldable pub run_in_order : List (Database → Option Database) → Database → Database
run_in_order [] db = db
run_in_order (statement ∷ rest) db = elim (statement db) [
  | none ↦ run_in_order rest db
  | some db' ↦ run_in_order rest db'
]

-- `main`, for a directory that is there or is not: nothing is printed for one with no `.avi` file.
unfoldable pub main :
    (String → Option ℤ)
    → (ℕ → String)
    → Ids
    → ℕ
    → Option (List LocalFile)
    → Option (List (Database → Option Database))
unfolding task_files statements
main int str_uuid ids now none = none
main int str_uuid ids now (some []) = none
main int str_uuid ids now (some (f ∷ files)) = do
  entries ← task_files int str_uuid ids (f ∷ files)
  some (statements ids now entries)
