-- ===== src/Models/Downloads.antt =====
-- The rows of app/models/task.py, task_file.py and library_item.py, with the values that their
-- check constraints let a status have.
use seans.Prelude.{ℕ, String, Option}
use seans.Prelude.Int.{ℤ}

pub data TaskStatus : Type 0 where
  queued assigned downloading uploading completed failed canceled : TaskStatus

pub record Task : Type 0 where
  pub id : ℕ
  pub user_id : ℕ
  pub media_item_id : ℕ
  pub torrent_release_id : ℕ
  pub worker_id : Option ℕ
  pub status : TaskStatus
  pub priority : ℤ
  pub attempts : ℕ
  pub max_attempts : ℕ
  pub reserved_bytes : ℤ
  pub progress_pct : ℤ
  pub speed_bps : ℤ
  pub stage : Option String
  pub error : Option String
  pub lease_expires_at : Option ℕ
  pub created_at : ℕ
  pub updated_at : ℕ

pub data FileStatus : Type 0 where
  pending uploaded : FileStatus

pub record TaskFile : Type 0 where
  pub id : ℕ
  pub task_id : ℕ
  pub path : String
  pub size_bytes : ℤ
  pub s3_key : Option String
  pub status : FileStatus
  pub season : Option ℤ
  pub episode : Option ℤ
  pub uploaded_at : Option ℕ

pub data LibraryStatus : Type 0 where
  in_progress ready : LibraryStatus

pub record LibraryItem : Type 0 where
  pub id : ℕ
  pub user_id : ℕ
  pub media_item_id : ℕ
  pub source_task_id : Option ℕ
  pub status : LibraryStatus
  pub created_at : ℕ
