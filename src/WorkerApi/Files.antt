-- ===== src/WorkerApi/Files.antt =====
-- The loops of `worker_manifest` and `worker_complete` over the files of a task.
use Prim.Native.Char.{code}
use mathlib.Core.Option
use seans.Prelude.{
  ℕ, suc, String, Bool, Option, none, some, List, [], ◌∷◌, ◌++◌, ◌&&◌, get_or, ◌==◌, str_eq, concat,
  if◌then◌else◌,
}
use seans.Prelude.Int.{ℤ, pos, ◌+ℤ◌}
use seans.Table.{exists, update_where}
use seans.Models.{Task, TaskFile, FileStatus}
use seans.WorkerApi.Bodies.{FileEntry, UploadSlot}

-- What stands behind the last `/` of a text, or `found` if there is none.
unfoldable pub last_part : String → String → String
last_part found String.[] = found
last_part found (String.◌∷◌ c rest) = last_part (if code c == b'/' then rest else found) rest

-- `path.split('/')[-1]`
unfoldable pub base_name : String → String
unfolding last_part
base_name path = last_part path path

-- `f"users/{task.user_id}/{task.media_item_id}/{f['path'].split('/')[-1]}"`
unfoldable pub s3_key_of : (ℕ → String) → Task → String → String
s3_key_of str_uuid task path = concat (
    "users/"
    ∷ str_uuid task.user_id
    ∷ "/"
    ∷ str_uuid task.media_item_id
    ∷ "/"
    ∷ base_name path
    ∷ [])

-- `TaskFile.task_id == task.id, TaskFile.path == f["path"]`, which `uq_task_files_task_path` makes
-- unique.
abbrev pub is_file : ℕ → String → TaskFile → Bool
is_file task_id path file = file.task_id == task_id && str_eq file.path path

abbrev pub new_file : (ℕ → String) → ℕ → Task → FileEntry → TaskFile
new_file str_uuid id task f = record {
  id = id;
  task_id = task.id;
  path = f.path;
  size_bytes = get_or f.size_bytes (pos 0);
  s3_key = some (s3_key_of str_uuid task f.path);
  status = FileStatus.pending;
  season = none;
  episode = none;
  uploaded_at = none;
}

-- The rows that the loop adds, as the commit flushes them: `none` is the `IntegrityError` of a
-- path that the task already has.
unfoldable pub add_files :
    (ℕ → String) → (ℕ → ℕ) → Task → ℕ → List FileEntry → List TaskFile → Option (List TaskFile)
add_files str_uuid new_id task i [] files = some files
add_files str_uuid new_id task i (f ∷ fs) files =
    let rest =
      add_files str_uuid new_id task (suc i) fs
        (files ++ new_file str_uuid (new_id i) task f ∷ []) in
    if exists (is_file task.id f.path) files then none else rest

-- `total_size += f.get("size_bytes", 0)`
unfoldable pub total_size : List FileEntry → ℤ
total_size [] = pos 0
total_size (f ∷ fs) = get_or f.size_bytes (pos 0) +ℤ total_size fs

-- The slots with their presigned URLs; `none` is boto3's refusal of a key that is null.
unfoldable pub upload_slots : (String → String) → List TaskFile → Option (List UploadSlot)
upload_slots presign_put [] = some []
upload_slots presign_put (file ∷ files) = elim file.s3_key [
  | none ↦ none
  | some key ↦
      Option.map
        (λ slots. record { path = file.path; s3_key = key; put_url = presign_put key } ∷ slots)
        (upload_slots presign_put files)
]

-- What `worker_complete` sets on a file that it found.
abbrev pub complete_file : ℕ → FileEntry → TaskFile → TaskFile
complete_file now f file = record file {
  status = FileStatus.uploaded;
  s3_key = get_or f.s3_key file.s3_key;
  size_bytes = get_or f.size_bytes file.size_bytes;
  uploaded_at = some now;
}

unfoldable pub complete_files : ℕ → ℕ → List FileEntry → List TaskFile → List TaskFile
complete_files now task_id [] files = files
complete_files now task_id (f ∷ fs) files =
    complete_files now task_id fs
      (update_where (is_file task_id f.path) (complete_file now f) files)
