-- ===== src/TaskQueue/Reclaim.antt =====
-- `reclaim_expired_tasks`: its two updates, as they meet each task.
use seans.Prelude.{
  ℕ, ◌≤◌, ◌<◌, ◌≡◌, refl, true, false, List, [], ◌∷◌, map, All, arith, if◌then◌else◌, ◌⊎◌, inl, inr,
  suc, none, some, Bool-cases, Option-cases,
}
use seans.Prelude.Int.{pos}
use seans.Table.{count_where, update_where}
use seans.Models.{Database, Task, TaskStatus, is_queued, is_leased}
use seans.TaskQueue.{
  is_reclaimed, requeue_task, is_exhausted, fail_exhausted, reclaim_expired_tasks,
}

unfoldable pub reclaim_one : ℕ → Task → Task
reclaim_one now t =
    let t' = if is_reclaimed now t then requeue_task t else t in
    if is_exhausted t' then fail_exhausted t' else t'

fuse :
    (now : ℕ) (tasks : List Task)
    → update_where is_exhausted fail_exhausted (update_where (is_reclaimed now) requeue_task tasks)
      ≡ map (reclaim_one now) tasks
unfolding update_where reclaim_one
fuse now [] = refl
fuse now (t ∷ tasks) = rw (fuse now tasks)

-- The job sends each task on by itself, and touches nothing but the tasks.
pub reclaim-map :
    (now : ℕ) (db : Database)
    → (reclaim_expired_tasks now db).1 ≡ record db { tasks = map (reclaim_one now) db.tasks }
unfolding reclaim_expired_tasks
reclaim-map now db = rw (fuse now db.tasks)

-- A worker holds the task under a lease that has run out.
abbrev pub IsLapsed : ℕ → Task → Type 0
IsLapsed now t =
    ((t.status ≡ TaskStatus.assigned)
      ⊎ (t.status ≡ TaskStatus.downloading)
      ⊎ (t.status ≡ TaskStatus.uploading))
    × (lease : ℕ) × (t.lease_expires_at ≡ some lease)
    × (lease < now)

-- Where the job should send a task: a lease that ran out frees it for another worker while it has
-- attempts left and fails it otherwise, a queued task with no attempts left fails, and any other
-- task stays.
abbrev pub Outcome : ℕ → Task → Task → Type 0
Outcome now t t' =
    (IsLapsed now t
      → t.attempts < t.max_attempts
      → t' ≡ record t { status = TaskStatus.queued; worker_id = none; lease_expires_at = none })
    × (IsLapsed now t
        → t.max_attempts ≤ t.attempts
        → t' ≡ record t {
          status = TaskStatus.failed;
          worker_id = none;
          lease_expires_at = none;
          reserved_bytes = pos 0;
          error = some "Max attempts exceeded";
        })
    × (t.status ≡ TaskStatus.queued
        → t.max_attempts ≤ t.attempts
        → t' ≡ record t {
          status = TaskStatus.failed;
          reserved_bytes = pos 0;
          error = some "Max attempts exceeded";
        })
    × (¬ IsLapsed now t
        → ¬ ((t.status ≡ TaskStatus.queued) × (t.max_attempts ≤ t.attempts))
        → t' ≡ t)

lapsed-is_reclaimed : (now : ℕ) (t : Task) → IsLapsed now t → is_reclaimed now t ≡ true
lapsed-is_reclaimed now t (inl s, lease, e, h) = rw (s, e) (ground arith)
lapsed-is_reclaimed now t (inr (inl s), lease, e, h) = rw (s, e) (ground arith)
lapsed-is_reclaimed now t (inr (inr s), lease, e, h) = rw (s, e) (ground arith)

leased_cases :
    (s : TaskStatus)
    → is_leased s ≡ true
    → (s ≡ TaskStatus.assigned) ⊎ (s ≡ TaskStatus.downloading) ⊎ (s ≡ TaskStatus.uploading)
leased_cases TaskStatus.queued h = absurd (ground arith)
leased_cases TaskStatus.assigned h = inl refl
leased_cases TaskStatus.downloading h = inr (inl refl)
leased_cases TaskStatus.uploading h = inr (inr refl)
leased_cases TaskStatus.completed h = absurd (ground arith)
leased_cases TaskStatus.failed h = absurd (ground arith)
leased_cases TaskStatus.canceled h = absurd (ground arith)

reclaimed-IsLapsed : (now : ℕ) (t : Task) → is_reclaimed now t ≡ true → IsLapsed now t
reclaimed-IsLapsed now t h = elim (Option-cases t.lease_expires_at) [
  | inl e ↦ absurd (ground arith)
  | inr (lease, e) ↦ (leased_cases t.status (ground arith), lease, e, ground arith)
]

queued_status : (s : TaskStatus) → is_queued s ≡ true → s ≡ TaskStatus.queued
queued_status s h = ground arith

reclaim_one-stays :
    (now : ℕ) (t : Task)
    → is_reclaimed now t ≡ false
    → ¬ ((t.status ≡ TaskStatus.queued) × (t.max_attempts ≤ t.attempts))
    → reclaim_one now t ≡ t
unfolding reclaim_one
reclaim_one-stays now t e rest = elim (Bool-cases (is_exhausted t)) [
  | inl full ↦ absurd (rest (queued_status t.status (ground arith), ground arith))
  | inr fits ↦ rw (e, fits) refl
]

reclaim_one-Outcome : (now : ℕ) (t : Task) → Outcome now t (reclaim_one now t)
unfolding reclaim_one
reclaim_one-Outcome now t = (
  λ lapsed h. let e = lapsed-is_reclaimed now t lapsed in ground arith,
  λ lapsed h. let e = lapsed-is_reclaimed now t lapsed in ground arith,
  λ queued h. ground arith,
  λ held rest. elim (Bool-cases (is_reclaimed now t)) [
    | inl e ↦ absurd (held (reclaimed-IsLapsed now t e))
    | inr e ↦ reclaim_one-stays now t e rest
  ],
)

-- `Outcome` for each task and its successor, in their order, of which `n` had a lease that ran out.
abbrev pub Outcomes : ℕ → ℕ → List Task → List Task → Type 0
Outcomes now n [] [] = n ≡ 0
Outcomes now n (t ∷ ts) (t' ∷ ts') =
    Outcome now t t'
    × ((IsLapsed now t × (m : ℕ) × (n ≡ suc m) × Outcomes now m ts ts')
        ⊎ ((¬ IsLapsed now t) × Outcomes now n ts ts'))
Outcomes now n _ _ = ⊥

map-Outcomes :
    (now : ℕ) (tasks : List Task)
    → Outcomes now (count_where (is_reclaimed now) tasks) tasks (map (reclaim_one now) tasks)
unfolding count_where
map-Outcomes now [] = refl
map-Outcomes now (t ∷ tasks) = (
  reclaim_one-Outcome now t,
  elim (Bool-cases (is_reclaimed now t)) [
    | inl e ↦ inl (
      reclaimed-IsLapsed now t e,
      count_where (is_reclaimed now) tasks,
      rw e refl,
      map-Outcomes now tasks,
    )
    | inr e ↦ inr (
      λ lapsed. let hit = lapsed-is_reclaimed now t lapsed in ground arith,
      rw e (map-Outcomes now tasks),
    )
  ],
)

-- The job puts a task whose lease has run out back into the queue, without a worker, while it has
-- attempts left, and fails it otherwise; it fails a queued task with no attempts left; a failed task
-- reserves nothing and says why. It leaves every other task as it was, keeps their order and number,
-- changes nothing but the tasks, and reports how many leases had run out.
pub reclaim-Outcomes :
    (now : ℕ) (db : Database)
    → let (n, db') = reclaim_expired_tasks now db in
      Outcomes now n db.tasks db'.tasks × (record db' { tasks = db.tasks } ≡ db)
unfolding reclaim_expired_tasks
reclaim-Outcomes now db = (rw (fuse now db.tasks) (map-Outcomes now db.tasks), refl)

settled :
    (now : ℕ) (tasks : List Task)
    → All
        (λ t. (is_reclaimed now t ≡ false) × (is_exhausted t ≡ false))
        (map (reclaim_one now) tasks)
unfolding reclaim_one
settled now [] = tt
settled now (t ∷ tasks) = ground (arith, settled now tasks)

unchanged :
    (now : ℕ) (tasks : List Task)
    → All (λ t. (is_reclaimed now t ≡ false) × (is_exhausted t ≡ false)) tasks
    → (count_where (is_reclaimed now) tasks ≡ 0)
      × (update_where is_exhausted fail_exhausted
            (update_where (is_reclaimed now) requeue_task tasks)
          ≡ tasks)
unfolding count_where update_where
unchanged now [] h = (refl, refl)
unchanged now (t ∷ tasks) ((leased, queued), h) =
    let (none_left, same) = unchanged now tasks h in
    (rw leased none_left, rw (leased, queued, same))

-- A second run at the same time finds nothing to do: no lease that ran out is left, and no queued
-- task without attempts.
reclaim_idem :
    (now : ℕ) (db : Database)
    → reclaim_expired_tasks now (reclaim_expired_tasks now db).1
      ≡ (0, (reclaim_expired_tasks now db).1)
reclaim_idem now db = rw (reclaim-map now db) (
    let tasks = map (reclaim_one now) db.tasks in
    let (none_left, same) = unchanged now tasks (settled now db.tasks) in
    unfold reclaim_expired_tasks in rw (none_left, same))
