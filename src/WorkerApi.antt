-- ===== src/WorkerApi.antt =====
-- app/routers/worker.py: the protocol of the download workers. A handler takes the worker that
-- `get_worker` authenticated; `with_worker` composes the two as FastAPI's `Depends` does.
-- The bodies are read as the records below: a key that the handlers read with a default is an
-- `Option`. `sha256`, `str_uuid` and `presign_put` are `hashlib.sha256(…).hexdigest()`, `str` of a
-- UUID and app/services/s3.py's call of boto3.
mod Bodies
mod Files
pub mod Auth
pub mod Keys
pub mod Manifest
pub mod Reserve
pub mod Progress
pub mod Finish
pub mod Registration
pub use Bodies.*
unfoldable pub use Files.*
use seans.Prelude.{
  ℕ, String, Bool, not, Option, none, some, List, [], ◌∷◌, ◌++◌, ◌&&◌, ◌||◌, get_or, ltb, ◌==◌,
  is_id, str_eq, if◌then◌else◌,
}
use seans.Prelude.Int.{ℤ, pos, min_ℤ}
use seans.Http.{
  Action, Result, http, internal_server_error, fail, raise_if, or_raise, pure, gets, commit, ◌>>=◌,
  ◌>>◌,
}
use seans.Table.{select, find, update_where}
use seans.Models.{
  Database, Task, TaskStatus, TaskFile, LibraryItem, LibraryStatus, Worker, TorrentRelease,
}
use seans.Config.{Settings}
use seans.TaskQueue.{claim_task, extend_lease, save_task, lease_expired}
use seans.Tasks.{is_library_item}

-- `scalar_one_or_none` on a column with no unique constraint: two rows are an error.
abbrev pub one_or_none : List Worker → Action Database (Option Worker)
one_or_none [] = pure none
one_or_none (worker ∷ []) = pure (some worker)
one_or_none (_ ∷ _ ∷ _) = fail internal_server_error

unfoldable pub get_worker : (String → String) → ℕ → String → Action Database Worker
get_worker sha256 now x_worker_token = do
  rows ← gets (λ db. select (λ w. str_eq w.token_hash (sha256 x_worker_token)) db.workers)
  found ← one_or_none rows
  worker ← or_raise found (http 401 "Invalid worker token")
  let seen = record worker { last_seen_at = some now }
  commit
      (λ db. record db { workers = update_where (λ w. w.id == worker.id) (λ _. seen) db.workers })
  pure seen

-- A request of the worker API: the dependency first, then the handler.
unfoldable pub with_worker :
    {A : Type 0} → (String → String) → ℕ → String → (Worker → Action Database A) → Action Database A
with_worker sha256 now token handler = do worker ← get_worker sha256 now token; handler worker

-- `worker_token` is the random text that the handler makes, `id` the `uuid4()` of the new row.
unfoldable pub register_worker :
    Settings
    → (String → String)
    → ℕ
    → ℕ
    → String
    → Option String
    → Option String
    → Action Database String
register_worker settings sha256 id now worker_token name reg_secret = do
  raise_if
      (str_eq (get_or name "") "" || not (secret_matches reg_secret settings.worker_reg_secret))
      (http 401 "Invalid registration secret")
  commit (λ db. record db {
    workers =
        db.workers
        ++ record {
          id = id;
          name = get_or name "";
          token_hash = sha256 worker_token;
          last_seen_at = none;
          registered_at = now;
        }
          ∷ [];
  })
  pure worker_token

-- What `claim_task` returns, as an action that commits.
abbrev pub claim : Settings → (ℕ → Bool) → ℕ → ℕ → Action Database (Option Task)
claim settings locked worker_id now db =
    let (task, db') = claim_task settings locked worker_id now db in (Result.ok task, db')

-- The body of `worker_claim` below the claim.
unfoldable pub claim_response : Settings → Option Task → Action Database (Option ClaimResponse)
claim_response settings none = pure none
claim_response settings (some task) = do
  found ← gets (λ db. find (λ r. r.id == task.torrent_release_id) db.torrent_releases)
  release ← or_raise found internal_server_error
  pure (
      some (record {
        task_id = task.id;
        title = release.title;
        magnet = release.magnet;
        lease_minutes = settings.lease_minutes;
      }))

unfoldable pub worker_claim :
    Settings → (ℕ → Bool) → ℕ → Worker → Action Database (Option ClaimResponse)
unfolding claim_task claim_response
worker_claim settings locked now worker = do
  task ← claim settings locked worker.id now
  claim_response settings task

-- `db.execute(select(Task).where(Task.id == task_id))` and the 404; no row equals a null.
unfoldable pub get_task : Option ℕ → Action Database Task
get_task task_id = do
  found ← gets (λ db. find (λ t. is_id task_id t.id) db.tasks)
  or_raise found (http 404 "Task not found")

-- `if task.worker_id != worker.id: raise …`
abbrev pub check_assigned : Worker → Task → Action Database (Unit {0})
check_assigned worker task =
    raise_if (not (is_id task.worker_id worker.id)) (http 409 "Task not assigned to this worker")

module _ (str_uuid : ℕ → String) (presign_put : String → String) where
  -- `new_id i` is the `uuid4()` of the i-th file.
  unfoldable pub worker_manifest :
      (ℕ → ℕ) → ManifestBody → Worker → Action Database (ℕ × List UploadSlot)
  unfolding get_task save_task
  worker_manifest new_id body worker = do
    task ← get_task body.task_id
    added ← gets (λ db. add_files str_uuid new_id task 0 (get_or body.files []) db.task_files)
    files ← or_raise added internal_server_error
    let manifested = record task {
      reserved_bytes = min_ℤ task.reserved_bytes (total_size (get_or body.files []));
      status = TaskStatus.downloading;
    }
    commit (λ db. save_task manifested (record db { task_files = files }))
    slots ← gets (λ db. upload_slots presign_put (select (λ f. f.task_id == task.id) db.task_files))
    upload ← or_raise slots internal_server_error
    pure (task.id, upload)

unfoldable pub worker_heartbeat : Settings → ℕ → HeartbeatBody → Worker → Action Database (Unit {0})
unfolding get_task extend_lease
worker_heartbeat settings now body worker = do
  task ← get_task body.task_id
  check_assigned worker task
  raise_if (lease_expired now task) (http 409 "Lease expired")
  commit (
      extend_lease settings now (record task {
        progress_pct = get_or body.progress_pct task.progress_pct;
        speed_bps = get_or body.speed_bps task.speed_bps;
        stage = get_or body.stage task.stage;
      }))

-- Mark task completed
abbrev pub complete_task : Task → Task
complete_task task = record task {
  status = TaskStatus.completed;
  reserved_bytes = pos 0;
  progress_pct = pos 100;
}

abbrev pub make_ready : LibraryItem → LibraryItem
make_ready item = record item { status = LibraryStatus.ready }

unfoldable pub worker_complete : ℕ → CompleteBody → Worker → Action Database (Unit {0})
unfolding get_task save_task
worker_complete now body worker = do
  task ← get_task body.task_id
  check_assigned worker task
  commit (λ db. save_task (complete_task task) (record db {
    task_files = complete_files now task.id (get_or body.files []) db.task_files;
    library_items =
        update_where (is_library_item task.user_id task.media_item_id) make_ready db.library_items;
  }))

-- The task after `worker_fail`: back in the queue while attempts are left.
unfoldable pub failed_task : String → Task → Task
failed_task error task =
    if ltb task.attempts task.max_attempts
    then record task {
      status = TaskStatus.queued;
      worker_id = none;
      lease_expires_at = none;
      error = some error;
    }
    else record task { status = TaskStatus.failed; reserved_bytes = pos 0; error = some error }

unfoldable pub worker_fail : FailBody → Worker → Action Database (Unit {0})
unfolding get_task save_task failed_task
worker_fail body worker = do
  task ← get_task body.task_id
  check_assigned worker task
  commit (save_task (failed_task (get_or body.error "Unknown error") task))
