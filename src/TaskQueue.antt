-- ===== src/TaskQueue.antt =====
-- app/services/task_queue.py: claiming a task under a lease, extending the lease, and reclaiming
-- the tasks whose lease has run out. `locked` says which rows other transactions hold locked when
-- the statement runs: `FOR UPDATE SKIP LOCKED` passes over them.
pub mod Claim
pub mod Reclaim
pub mod Drain
use seans.Prelude.{
  ℕ, ◌+◌, String, Bool, false, Option, none, some, List, ◌&&◌, ◌||◌, not, ltb, leb, ◌==◌,
}
use seans.Prelude.Int.{ℤ, pos, leb_ℤ}
use seans.Table.{select, update_where, count_where, order_by, limit_one}
use seans.Models.{Database, Task, TaskStatus, is_queued, is_leased}
use seans.Config.{Settings, minutes}

-- `.order_by(Task.priority.desc(), Task.created_at)`: `t` stands strictly before `u`.
unfoldable pub claims_before : Task → Task → Bool
claims_before t u =
    not (leb_ℤ t.priority u.priority)
    || (leb_ℤ u.priority t.priority && ltb t.created_at u.created_at)

-- The row that the `SELECT … FOR UPDATE SKIP LOCKED LIMIT 1` returns.
unfoldable pub next_task : (ℕ → Bool) → List Task → Option Task
unfolding claims_before
next_task locked tasks =
    limit_one (order_by claims_before (select (λ t. is_queued t.status && not (locked t.id)) tasks))

-- The write of the changed object at the commit.
unfoldable pub save_task : Task → Database → Database
save_task task db = record db { tasks = update_where (λ t. t.id == task.id) (λ _. task) db.tasks }

-- The task with the attributes that `claim_task` sets.
abbrev pub assign_task : Settings → ℕ → ℕ → Task → Task
assign_task settings worker_id now task = record task {
  status = TaskStatus.assigned;
  worker_id = some worker_id;
  lease_expires_at = some (now + minutes settings.lease_minutes);
  attempts = task.attempts + 1;
}

-- The body of `claim_task` below the query.
unfoldable pub claim_row : Settings → ℕ → ℕ → Option Task → Database → Option Task × Database
unfolding save_task
claim_row settings worker_id now none db = (none, db)
claim_row settings worker_id now (some task) db =
    let claimed = assign_task settings worker_id now task in (some claimed, save_task claimed db)

unfoldable pub claim_task : Settings → (ℕ → Bool) → ℕ → ℕ → Database → Option Task × Database
unfolding claim_row
claim_task settings locked worker_id now db =
    claim_row settings worker_id now (next_task locked db.tasks) db

unfoldable pub extend_lease : Settings → ℕ → Task → Database → Database
unfolding save_task
extend_lease settings now task =
    save_task (record task { lease_expires_at = some (now + minutes settings.lease_minutes) })

-- `Task.lease_expires_at < now`, which is false at a null.
abbrev pub lease_expired : ℕ → Task → Bool
lease_expired now task = elim task.lease_expires_at [ none ↦ false | some lease ↦ ltb lease now ]

-- The two `WHERE` clauses of `reclaim_expired_tasks`, and what each sets.
abbrev pub is_reclaimed : ℕ → Task → Bool
is_reclaimed now task = is_leased task.status && lease_expired now task

abbrev pub requeue_task : Task → Task
requeue_task task = record task {
  status = TaskStatus.queued;
  worker_id = none;
  lease_expires_at = none;
}

abbrev pub is_exhausted : Task → Bool
is_exhausted task = is_queued task.status && leb task.max_attempts task.attempts

abbrev pub fail_exhausted : Task → Task
fail_exhausted task = record task {
  status = TaskStatus.failed;
  reserved_bytes = pos 0;
  error = some "Max attempts exceeded";
}

unfoldable pub reclaim_expired_tasks : ℕ → Database → ℕ × Database
reclaim_expired_tasks now db = (
  count_where (is_reclaimed now) db.tasks,
  record db {
    tasks =
        update_where is_exhausted fail_exhausted
          (update_where (is_reclaimed now) requeue_task db.tasks);
  },
)
