-- ===== src/Scripts/FakeWorker.antt =====
-- scripts/fake_worker.py: a worker that downloads nothing, as the requests that it sends one after
-- the other to the worker API. `raise_for_status` ends the script at the first refused one. The
-- upload of the fake file to S3, the sleeps and the printed lines are left out.
pub mod Sound
pub mod Turn
use seans.Prelude.{ℕ, suc, ◌+◌, ◌*◌, String, Bool, Option, none, some, List, [], ◌∷◌, map, concat}
use seans.Prelude.Decimal.{str}
use seans.Prelude.Int.{pos}
use seans.Http.{Action, HttpException, http, fail, pure, ◌>>=◌, ◌>>◌}
use seans.Models.{Database}
use seans.Lifecycle.{Env}
use seans.WorkerApi.{
  FileEntry, ManifestBody, HeartbeatBody, CompleteBody, ClaimResponse, UploadSlot, with_worker,
  register_worker, worker_claim, worker_manifest, worker_heartbeat, worker_complete,
}

abbrev pub worker_name : String
worker_name = "fake-worker-1"

abbrev pub reg_secret : String
reg_secret = "change-me"

abbrev pub fake_files : List FileEntry
fake_files =
    record { path = "movie.mkv"; size_bytes = some (pos (1024 * 1024)); s3_key = none } ∷ []

-- The three reports of a task, each with the number of its round.
abbrev pub manifest_body : ℕ → ManifestBody
manifest_body task_id = record { task_id = some task_id; files = some fake_files }

abbrev pub heartbeat_body : ℕ → ℕ → HeartbeatBody
heartbeat_body task_id i = record {
  task_id = some task_id;
  progress_pct = some (pos ((i + 1) * 33));
  speed_bps = some (pos (1024 * 100));
  stage = some (some (concat ("downloading part " ∷ str (pos (i + 1)) ∷ "/3" ∷ [])));
}

abbrev pub complete_body : ℕ → CompleteBody
complete_body task_id = record {
  task_id = some task_id;
  files = some (map (λ (f : FileEntry). record f { s3_key = some (some "") }) fake_files);
}

-- The API answers a claim that finds no task with the status 200 and `null`, for which the script has
-- no branch: `task["task_id"]` raises a `TypeError`.
abbrev pub no_task : HttpException
no_task = http 200 "'NoneType' object is not subscriptable"

-- `clock n` is the time of the n-th request, `token` the one that the registration returned,
-- `new_id` and `locked` as in the handlers.
module _ (env : Env) (clock : ℕ → ℕ) (token : String) where
  -- The registration; `id` and `token` are what the handler draws.
  unfoldable pub enlist : ℕ → Action Database String
  unfolding register_worker
  enlist id =
      register_worker env.settings env.sha256 id (clock 0) token (some worker_name)
        (some reg_secret)

  unfoldable pub claim : (ℕ → Bool) → Action Database (Option ClaimResponse)
  unfolding with_worker worker_claim
  claim locked = with_worker env.sha256 (clock 1) token (worker_claim env.settings locked (clock 1))

  unfoldable pub send_manifest : (ℕ → ℕ) → ℕ → Action Database (ℕ × List UploadSlot)
  unfolding with_worker worker_manifest
  send_manifest new_id task_id =
      with_worker env.sha256 (clock 2) token
        (worker_manifest env.str_uuid env.presign_put new_id (manifest_body task_id))

  unfoldable pub heartbeat : ℕ → ℕ → Action Database (Unit {0})
  unfolding with_worker worker_heartbeat
  heartbeat task_id i =
      with_worker env.sha256 (clock (i + 3)) token
        (worker_heartbeat env.settings (clock (i + 3)) (heartbeat_body task_id i))

  unfoldable pub heartbeats : ℕ → List ℕ → Action Database (Unit {0})
  unfolding heartbeat
  heartbeats task_id [] = pure tt
  heartbeats task_id (i ∷ rounds) = heartbeat task_id i >> heartbeats task_id rounds

  unfoldable pub complete : ℕ → Action Database (Unit {0})
  unfolding with_worker worker_complete
  complete task_id =
      with_worker env.sha256 (clock 6) token (worker_complete (clock 6) (complete_body task_id))

  -- The requests about the task that it claimed, for `range(3)` the heartbeats.
  unfoldable pub finish : ℕ → Action Database ℕ
  unfolding complete
  finish task_id = do complete task_id; pure task_id

  unfoldable pub report : ℕ → Action Database ℕ
  unfolding heartbeats finish
  report task_id = heartbeats task_id (0 ∷ 1 ∷ 2 ∷ []) >> finish task_id

  unfoldable pub deliver : (ℕ → ℕ) → Option ClaimResponse → Action Database ℕ
  unfolding send_manifest report
  deliver new_id none = fail no_task
  deliver new_id (some task) = do manifest ← send_manifest new_id task.task_id; report task.task_id

  -- A turn of the loop, with the id of the task that it completed.
  unfoldable pub turn : (ℕ → Bool) → (ℕ → ℕ) → Action Database ℕ
  unfolding claim deliver
  turn locked new_id = do task ← claim locked; deliver new_id task
