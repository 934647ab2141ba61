-- ===== src/WorkerApi/Bodies.antt =====
-- The JSON bodies of app/routers/worker.py, and what the handlers answer.
use seans.Prelude.{ℕ, String, Bool, false, Option, none, some, List, str_eq}
use seans.Prelude.Int.{ℤ}

-- An element of `files`: `f["path"]`, `f.get("size_bytes", …)` and `f.get("s3_key", …)`.
pub record FileEntry : Type 0 where
  pub path : String
  pub size_bytes : Option ℤ
  pub s3_key : Option (Option String)

pub record ManifestBody : Type 0 where
  pub task_id : Option ℕ
  pub files : Option (List FileEntry)

pub record HeartbeatBody : Type 0 where
  pub task_id : Option ℕ
  pub progress_pct : Option ℤ
  pub speed_bps : Option ℤ
  pub stage : Option (Option String)

pub record CompleteBody : Type 0 where
  pub task_id : Option ℕ
  pub files : Option (List FileEntry)

pub record FailBody : Type 0 where
  pub task_id : Option ℕ
  pub error : Option String

pub record ClaimResponse : Type 0 where
  pub task_id : ℕ
  pub title : String
  pub magnet : Option String
  pub lease_minutes : ℕ

pub record UploadSlot : Type 0 where
  pub path : String
  pub s3_key : String
  pub put_url : String

-- `reg_secret == settings.WORKER_REG_SECRET`
abbrev pub secret_matches : Option String → String → Bool
secret_matches none secret = false
secret_matches (some sent) secret = str_eq sent secret
