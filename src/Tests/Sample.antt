-- ===== src/Tests/Sample.antt =====
-- A small database, and the outside world as functions that compute.
use seans.Prelude.{ℕ, String, true, false, none, some, List, [], ◌∷◌, Bool}
use seans.Prelude.Int.{pos}
use seans.Models.{
  Database, User, InviteKey, Worker, MediaItem, KpType, TorrentRelease, Task, TaskStatus, TaskFile,
  FileStatus,
}
use seans.Config.{Settings}
use seans.Lifecycle.{Env}

abbrev pub settings : Settings
settings = record { worker_reg_secret = "secret"; lease_minutes = 30; jwt_ttl_days = 7 }

abbrev pub env : Env
env = record { settings = settings; sha256 = λ s. s; str_uuid = λ n. "u"; presign_put = λ s. s }

abbrev pub no_lock : ℕ → Bool
no_lock id = false

abbrev pub user_row : ℕ → String → Bool → User
user_row id email is_admin = record {
  id = id;
  email = email;
  password_hash = "pw";
  display_name = email;
  is_admin = is_admin;
  can_invite = is_admin;
  plan = "free";
  plan_expires_at = none;
  quota_bytes = pos 1000;
  created_at = 0;
}

abbrev pub alice : User
alice = user_row 1 "alice" true

abbrev pub bob : User
bob = user_row 2 "bob" false

abbrev pub worker_row : ℕ → String → Worker
worker_row id token = record {
  id = id;
  name = token;
  token_hash = token;
  last_seen_at = none;
  registered_at = 0;
}

abbrev pub release : TorrentRelease
release = record {
  id = 7;
  media_item_id = 5;
  source = "jacred";
  tracker = "t";
  title = "Film";
  info_hash = "h";
  size_bytes = pos 400;
  seeders = pos 1;
  leechers = pos 0;
  quality = none;
  voiceover = none;
  magnet = none;
  fetched_at = 0;
}

abbrev pub medium : MediaItem
medium = record {
  id = 5;
  kp_id = none;
  tmdb_id = none;
  kp_type = KpType.movie;
  title = "Film";
  original_title = none;
  year = none;
  poster_url = none;
  overview = none;
  rating_kp = none;
  genres = [];
  raw = "{}";
  updated_at = 0;
}

-- A queued task of alice.
abbrev pub queued_task : ℕ → ℕ → Task
queued_task id created_at = record {
  id = id;
  user_id = 1;
  media_item_id = 5;
  torrent_release_id = 7;
  worker_id = none;
  status = TaskStatus.queued;
  priority = pos 0;
  attempts = 0;
  max_attempts = 3;
  reserved_bytes = pos 400;
  progress_pct = pos 0;
  speed_bps = pos 0;
  stage = none;
  error = none;
  lease_expires_at = none;
  created_at = created_at;
  updated_at = 0;
}

-- One that a worker holds.
abbrev pub held_task : ℕ → ℕ → Task
held_task id worker_id = record (queued_task id 0) {
  status = TaskStatus.assigned;
  worker_id = some worker_id;
  lease_expires_at = some 100;
  attempts = 1;
}

abbrev pub pending_file : ℕ → ℕ → TaskFile
pending_file id task_id = record {
  id = id;
  task_id = task_id;
  path = "a.mkv";
  size_bytes = pos 400;
  s3_key = some "k";
  status = FileStatus.pending;
  season = none;
  episode = none;
  uploaded_at = none;
}

abbrev pub invite : InviteKey
invite = record {
  id = 3;
  key = "welcome";
  created_by = some 1;
  used_by = none;
  created_at = 0;
  used_at = none;
}

abbrev pub with_tasks : List Task → Database
with_tasks tasks = record {
  users = alice ∷ bob ∷ [];
  invite_keys = invite ∷ [];
  workers = worker_row 1 "one" ∷ worker_row 2 "two" ∷ [];
  media_items = medium ∷ [];
  torrent_releases = release ∷ [];
  tasks = tasks;
  task_files = [];
  library_items = [];
  reviews = [];
  watch_history = [];
  rooms = [];
  room_members = [];
}
