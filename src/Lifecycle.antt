-- ===== src/Lifecycle.antt =====
-- The download service as a whole: the requests that change a task, each one transaction of the
-- handlers in app/routers/tasks.py and app/routers/worker.py or a round of the reaper in
-- app/jobs/reaper.py, and the database after any sequence of them.
pub mod Soundness
pub mod Invariant
pub mod Retry
use seans.Prelude.{ℕ, String, Bool, Option, List, [], ◌∷◌}
use seans.Http.{Action}
use seans.Models.{Database, User, Task, Worker}
use seans.Config.{Settings}
use seans.TaskQueue.{reclaim_expired_tasks}
use seans.Tasks.{create_task, cancel_task}
use seans.WorkerApi.{
  ManifestBody, HeartbeatBody, CompleteBody, FailBody, with_worker, worker_claim, worker_manifest,
  worker_heartbeat, worker_complete, worker_fail,
}

-- What the handlers call outside the program, and its settings.
pub record Env : Type 0 where
  pub settings : Settings
  pub sha256 : String → String
  pub str_uuid : ℕ → String
  pub presign_put : String → String

-- A request with the time at which it is served, the UUIDs that it draws and the rows that other
-- transactions hold locked.
pub data Request : Type 0 where
  create : ℕ → ℕ → ℕ → User → ℕ → Request
  cancel : User → ℕ → Request
  claim : ℕ → String → (ℕ → Bool) → Request
  manifest : ℕ → String → (ℕ → ℕ) → ManifestBody → Request
  heartbeat : ℕ → String → HeartbeatBody → Request
  complete : ℕ → String → CompleteBody → Request
  fail : ℕ → String → FailBody → Request
  reap : ℕ → Request

-- One round of `reaper_loop`.
abbrev pub reaper_round : ℕ → Database → Database
reaper_round now db = (reclaim_expired_tasks now db).1

-- The database that a request leaves, whether it was answered or refused.
unfoldable pub serve : Env → Request → Database → Database
serve env (create task_id item_id now user release_id) db =
    (create_task task_id item_id now user release_id db).1
serve env (cancel user task_id) db = (cancel_task user task_id db).1
serve env (claim now token locked) db =
    (with_worker env.sha256 now token (worker_claim env.settings locked now) db).1
serve env (manifest now token new_id body) db =
    let handler = worker_manifest env.str_uuid env.presign_put new_id body in
    (with_worker env.sha256 now token handler db).1
serve env (heartbeat now token body) db =
    (with_worker env.sha256 now token (worker_heartbeat env.settings now body) db).1
serve env (complete now token body) db =
    (with_worker env.sha256 now token (worker_complete now body) db).1
serve env (fail now token body) db = (with_worker env.sha256 now token (worker_fail body) db).1
serve env (reap now) db = reaper_round now db

unfoldable pub serve_all : Env → List Request → Database → Database
serve_all env [] db = db
serve_all env (request ∷ requests) db = serve_all env requests (serve env request db)
