-- ===== src/Tests/Queue.antt =====
-- Tasks, their queue and the requests that change them.
use seans.Prelude.{
  List, ◌≡◌, ◌≢◌, ◌⊎◌, refl, true, false, none, some, [], ◌∷◌, All, arith, ◌&&◌, ◌++◌, ◌==◌,
}
use seans.Prelude.Int.{pos, ◌+ℤ◌, ◌≤ℤ◌}
use seans.Http.{ok, raise, http}
use seans.Table.{select, find, insert_by, order_by, update_where, sum_by, join, count_where}
use seans.Models.{Database, User, Task, TaskStatus, TorrentRelease, is_cancelable}
use seans.Quota.{get_used_bytes, get_reserved_bytes, get_effective_quota_bytes, check_quota}
use seans.Plans.{is_plan_expired}
use seans.TaskQueue.{
  claims_before, next_task, claim_row, claim_task, save_task, assign_task, reclaim_expired_tasks,
}
use seans.TaskQueue.Claim.{claims_exclusive, claim_task_cases, IsClaim}
use seans.TaskQueue.Reclaim.{Outcomes, reclaim-Outcomes}
use seans.Tasks.{new_task, create_task, cancel_task}
use mathlib.Core.List.{Perm}
use seans.Tasks.{list_tasks}
use seans.Models.{LibraryItem}
use seans.Tasks.Listing.{is_listed, IsNewestFirst, list_tasks-IsSorted}
use seans.Tasks.Create.{create_task_within_quota, create_task_cases, IsQueuedFor, IsEnsured}
use seans.Tasks.Cancel.{cancel_task_cases}
use seans.Lifecycle.{Request, serve_all}
use seans.Lifecycle.Soundness.{IsSound}
use seans.Lifecycle.Invariant.{AllSound, serve_all-AllSound}
use seans.TaskQueue.Drain.{queued_count, claim_each, claims_drain_queue}
use seans.Table.{count_where}
use seans.Lifecycle.Retry.{fail_each, retries_end}
use seans.Tests.Sample.{
  worker_row, settings, env, no_lock, alice, release, queued_task, held_task, with_tasks,
}

abbrev two_tasks : Database
two_tasks = with_tasks (queued_task 10 1 ∷ queued_task 12 2 ∷ [])

-- The older task is claimed first.
claims_older :
    (claim_task settings no_lock 1 100 two_tasks).0
    ≡ some (assign_task settings 1 100 (queued_task 10 1))
unfolding claim_task next_task claims_before select order_by insert_by claim_row
claims_older = refl

abbrev first : Task
first = assign_task settings 1 100 (queued_task 10 1)

abbrev second : Task
second = assign_task settings 2 101 (queued_task 12 2)

claims_exclusive_example : (second.id ≢ first.id) × (second.id ≢ first.id)
unfolding claim_task next_task claims_before select order_by insert_by claim_row save_task
    update_where
claims_exclusive_example =
    claims_exclusive settings no_lock (λ id. id == 10) no_lock 1 2 100 101 two_tasks first second
      second refl refl refl refl

claim_task_cases_example :
    ((t : Task) × IsClaim settings no_lock 1 100 two_tasks t)
    ⊎ (All (λ u. u.status ≡ TaskStatus.queued → no_lock u.id ≡ true) two_tasks.tasks
        × (claim_task settings no_lock 1 100 two_tasks ≡ (none, two_tasks)))
claim_task_cases_example = claim_task_cases settings no_lock 1 100 two_tasks

abbrev one_held : Database
one_held = with_tasks (held_task 11 1 ∷ queued_task 12 2 ∷ [])

reclaim-Outcomes_example :
    Outcomes 200 1 one_held.tasks (reclaim_expired_tasks 200 one_held).1.tasks
    × (record (reclaim_expired_tasks 200 one_held).1 { tasks = one_held.tasks } ≡ one_held)
unfolding reclaim_expired_tasks count_where
reclaim-Outcomes_example = reclaim-Outcomes 200 one_held

-- 800 of 1000 bytes are reserved, so another 400 do not fit.
over_quota : (create_task 20 21 50 alice 7 one_held).0 ≡ raise (http 409 "quota_exceeded")
unfolding create_task check_quota get_used_bytes get_reserved_bytes get_effective_quota_bytes
    is_plan_expired find select sum_by join ◌+ℤ◌
over_quota = refl

abbrev only_held : Database
only_held = with_tasks (held_task 11 1 ∷ [])

create_task_within_quota_example :
    let db' = (create_task 20 21 50 alice 7 only_held).1 in
    (row : User) × (find (λ u. u.id == 1) db'.users ≡ some row)
    × (get_used_bytes db' 1 +ℤ get_reserved_bytes db' 1 ≤ℤ get_effective_quota_bytes row 50)
unfolding create_task check_quota get_used_bytes get_reserved_bytes get_effective_quota_bytes
    is_plan_expired find select sum_by join ◌+ℤ◌
create_task_within_quota_example =
    create_task_within_quota 20 21 50 alice 7 only_held (new_task 20 50 alice release) refl tt

cancel_task_cases_example :
    ((find (λ t. t.id == 12 && t.user_id == 1) one_held.tasks ≡ none)
      × (cancel_task alice 12 one_held ≡ (raise (http 404 "Task not found"), one_held)))
    ⊎ ((t : Task) × (find (λ t. t.id == 12 && t.user_id == 1) one_held.tasks ≡ some t)
        × (is_cancelable t.status ≡ false)
        × (cancel_task alice 12 one_held
            ≡ (raise (http 409 "Cannot cancel task in progress"), one_held)))
    ⊎ ((t : Task) × (find (λ t. t.id == 12 && t.user_id == 1) one_held.tasks ≡ some t)
        × (is_cancelable t.status ≡ true)
        × ((cancel_task alice 12 one_held).0
            ≡ ok (record t { status = TaskStatus.canceled; reserved_bytes = pos 0 }))
        × (get_reserved_bytes one_held 1
            ≡ t.reserved_bytes +ℤ get_reserved_bytes (cancel_task alice 12 one_held).1 1))
cancel_task_cases_example = cancel_task_cases alice 12 one_held ((ground arith, tt), (tt, tt))

create_task_cases_example :
    ((find (λ r. r.id == 7) only_held.torrent_releases ≡ none)
      × (create_task 20 21 50 alice 7 only_held
          ≡ (raise (http 404 "Torrent release not found"), only_held)))
    ⊎ ((r : TorrentRelease) × (find (λ r. r.id == 7) only_held.torrent_releases ≡ some r)
        × ((row : User)
            → find (λ u. u.id == 1) only_held.users ≡ some row
            → ¬ (
                get_used_bytes only_held 1 +ℤ get_reserved_bytes only_held 1 +ℤ r.size_bytes
                ≤ℤ get_effective_quota_bytes row 50))
        × (create_task 20 21 50 alice 7 only_held ≡ (raise (http 409 "quota_exceeded"), only_held)))
    ⊎ ((r : TorrentRelease) × (find (λ r. r.id == 7) only_held.torrent_releases ≡ some r)
        × (row : User) × (find (λ u. u.id == 1) only_held.users ≡ some row)
        × (get_used_bytes only_held 1 +ℤ get_reserved_bytes only_held 1 +ℤ r.size_bytes
            ≤ℤ get_effective_quota_bytes row 50)
        × (t : Task) × (items : List LibraryItem) × (t.id ≡ 20)
        × IsQueuedFor alice r t
        × IsEnsured alice r 20 only_held.library_items items
        × (create_task 20 21 50 alice 7 only_held ≡ (
          ok t,
          record only_held { tasks = only_held.tasks ++ t ∷ []; library_items = items },
        )))
create_task_cases_example = create_task_cases 20 21 50 alice 7 only_held

held-IsSound : IsSound (held_task 11 1)
held-IsSound = ground arith

serve_all-AllSound_example : AllSound (
    serve_all env
      (Request.create 20 21 50 alice 7
        ∷ Request.claim 60 "two" no_lock
        ∷ Request.fail 70 "two" (record { task_id = some 20; error = none })
        ∷ Request.reap 200
        ∷ [])
      only_held)
serve_all-AllSound_example = serve_all-AllSound env _ only_held (held-IsSound, tt)

list_tasks-IsSorted_example :
    Perm (list_tasks true alice one_held) (select (is_listed true alice) one_held.tasks)
    × IsNewestFirst (list_tasks true alice one_held)
list_tasks-IsSorted_example = list_tasks-IsSorted true alice one_held

-- Two claims empty a queue of two.
claims_drain_queue_example :
    queued_count (
      claim_each settings
        ((1, 5) ∷ (2, 6) ∷ [])
        (with_tasks (queued_task 10 1 ∷ queued_task 11 2 ∷ [])))
    ≡ 0
unfolding count_where
claims_drain_queue_example =
    claims_drain_queue settings ((1, 5) ∷ (2, 6) ∷ [])
      (with_tasks (queued_task 10 1 ∷ queued_task 11 2 ∷ [])) (omega arith)

-- Three attempts, and a round in which the task leaves the queue.
retries_end_example :
    queued_count (
      fail_each settings
        (worker_row 1 "one")
        ((5, none) ∷ (6, none) ∷ (7, some "no seeders") ∷ (8, none) ∷ [])
        (with_tasks (queued_task 10 1 ∷ [])))
    ≡ 0
retries_end_example =
    retries_end settings (worker_row 1 "one")
      ((5, none) ∷ (6, none) ∷ (7, some "no seeders") ∷ (8, none) ∷ [])
      (with_tasks (queued_task 10 1 ∷ [])) (tt, tt) (omega arith)
