-- ===== src/Tasks/Responses.antt =====
-- app/schemas/task.py: what a request for a task holds, and what the handlers make of a row with
-- `model_validate` for their answers. The handlers of Tasks return the row.
use seans.Prelude.{ℕ, String, Option, List}
use seans.Prelude.Int.{ℤ}
use seans.Models.{Task, TaskStatus}

pub record CreateTaskRequest : Type 0 where
  pub torrent_release_id : ℕ
  pub file_paths : List String

pub record TaskResponse : Type 0 where
  pub id : ℕ
  pub status : TaskStatus
  pub reserved_bytes : ℤ
  pub progress_pct : ℤ
  pub speed_bps : ℤ
  pub stage : Option String
  pub created_at : ℕ

pub record TaskDetailResponse : Type 0 where
  pub id : ℕ
  pub status : TaskStatus
  pub reserved_bytes : ℤ
  pub progress_pct : ℤ
  pub speed_bps : ℤ
  pub stage : Option String
  pub error : Option String
  pub created_at : ℕ
  pub updated_at : ℕ

abbrev pub task_response : Task → TaskResponse
task_response task = record {
  id = task.id;
  status = task.status;
  reserved_bytes = task.reserved_bytes;
  progress_pct = task.progress_pct;
  speed_bps = task.speed_bps;
  stage = task.stage;
  created_at = task.created_at;
}

abbrev pub task_detail : Task → TaskDetailResponse
task_detail task = record {
  id = task.id;
  status = task.status;
  reserved_bytes = task.reserved_bytes;
  progress_pct = task.progress_pct;
  speed_bps = task.speed_bps;
  stage = task.stage;
  error = task.error;
  created_at = task.created_at;
  updated_at = task.updated_at;
}
