-- ===== src/Lifecycle/Soundness.antt =====
-- What holds of every task between two requests, and each change of one task.
use seans.Prelude.{ℕ, ◌≤◌, ◌<◌, ◌≡◌, ◌≢◌, String, true, false, Option, none, some, arith, is_id}
use seans.Prelude.Int.{ℤ, pos, ◌≤ℤ◌, min_ℤ}
use seans.Models.{User, Task, TaskStatus, TorrentRelease, is_queued, is_active}
use seans.Config.{Settings}
use seans.TaskQueue.{assign_task}
use seans.TaskQueue.Reclaim.{reclaim_one}
use seans.Tasks.{new_task}
use seans.WorkerApi.{complete_task, failed_task}

-- A queued task is free and has attempts left, no task was attempted more often than its limit, an
-- assigned task has a worker and a lease, a finished task reserves nothing, and nothing is
-- `uploading`.
pub record IsSound (t : Task) : Type 0 where
  pub bounded : t.attempts ≤ t.max_attempts
  pub queued_left : t.status ≡ TaskStatus.queued → t.attempts < t.max_attempts
  pub queued_free : t.status ≡ TaskStatus.queued → t.worker_id ≡ none
  pub queued_unleased : t.status ≡ TaskStatus.queued → t.lease_expires_at ≡ none
  pub assigned_held : t.status ≡ TaskStatus.assigned → t.worker_id ≢ none
  pub assigned_leased : t.status ≡ TaskStatus.assigned → t.lease_expires_at ≢ none
  pub finished_released : is_active t.status ≡ false → t.reserved_bytes ≤ℤ pos 0
  pub never_uploading : t.status ≢ TaskStatus.uploading

pub new_task-IsSound :
    (id now : ℕ) (user : User) (release : TorrentRelease) → IsSound (new_task id now user release)
new_task-IsSound id now user release = ground arith

pub assign_task-IsSound :
    (settings : Settings) (worker_id now : ℕ) (t : Task)
    → is_queued t.status ≡ true
    → IsSound t
    → IsSound (assign_task settings worker_id now t)
assign_task-IsSound settings worker_id now t queued h = ground arith

pub canceled-IsSound :
    (t : Task)
    → IsSound t
    → IsSound (record t { status = TaskStatus.canceled; reserved_bytes = pos 0 })
canceled-IsSound t h = ground arith

pub complete_task-IsSound : (t : Task) → IsSound t → IsSound (complete_task t)
complete_task-IsSound t h = ground arith

pub failed_task-IsSound : (error : String) (t : Task) → IsSound t → IsSound (failed_task error t)
unfolding failed_task
failed_task-IsSound error t h = ground arith

pub manifested-IsSound :
    (total : ℤ) (t : Task)
    → IsSound t
    → IsSound (record t {
      reserved_bytes = min_ℤ t.reserved_bytes total;
      status = TaskStatus.downloading;
    })
manifested-IsSound total t h = ground arith

pub heartbeat-IsSound :
    (t : Task) (worker : ℕ) (progress speed : ℤ) (stage : Option String) (lease : ℕ)
    → is_id t.worker_id worker ≡ true
    → IsSound t
    → IsSound (record t {
      progress_pct = progress;
      speed_bps = speed;
      stage = stage;
      lease_expires_at = some lease;
    })
heartbeat-IsSound t worker progress speed stage lease held h = ground arith

pub reclaim_one-IsSound : (now : ℕ) (t : Task) → IsSound t → IsSound (reclaim_one now t)
unfolding reclaim_one
reclaim_one-IsSound now t h = ground arith
