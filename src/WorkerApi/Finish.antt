-- ===== src/WorkerApi/Finish.antt =====
-- The guards of the handlers that act on an assigned task.
use seans.Prelude.{ℕ, ◌≡◌, Option, true, false, some, none, arith, is_id, ◌==◌}
use seans.Http.{http, raise}
use seans.Table.{find}
use seans.Models.{Database, Task, Worker}
use seans.Config.{Settings}
use seans.WorkerApi.{
  HeartbeatBody, CompleteBody, FailBody, worker_heartbeat, worker_complete, worker_fail,
}

abbrev pub task_row : Option ℕ → Database → Option Task
task_row task_id db = find (λ t. is_id task_id t.id) db.tasks

-- A key names one id.
pub same_row :
    (task_id : Option ℕ) (a b : ℕ)
    → is_id task_id a ≡ true
    → is_id task_id b ≡ true
    → (b == a) ≡ true
same_row none a b h k = absurd (ground arith)
same_row (some id) a b h k = ground arith

-- A heartbeat, a completion and a failure of a worker to which the task is not assigned are refused
-- with 409, and change nothing. (The bodies name one task, which is in the table.)
not_assigned_refused :
    (settings : Settings) (now : ℕ) (worker : Worker) (db : Database) (t : Task)
    (beat : HeartbeatBody) (done : CompleteBody) (failure : FailBody)
    → is_id t.worker_id worker.id ≡ false
    → task_row beat.task_id db ≡ some t
    → task_row done.task_id db ≡ some t
    → task_row failure.task_id db ≡ some t
    → (worker_heartbeat settings now beat worker db
        ≡ (raise (http 409 "Task not assigned to this worker"), db))
      × (worker_complete now done worker db
          ≡ (raise (http 409 "Task not assigned to this worker"), db))
      × (worker_fail failure worker db ≡ (raise (http 409 "Task not assigned to this worker"), db))
unfolding worker_heartbeat worker_complete worker_fail
not_assigned_refused settings now worker db t beat done failure other b d f =
    (rw (b, other), rw (d, other), rw (f, other))
