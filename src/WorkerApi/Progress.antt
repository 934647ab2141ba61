-- ===== src/WorkerApi/Progress.antt =====
-- Leases: what a claim or a heartbeat saves from the reaper, and for how long.
use seans.Prelude.{
  ℕ, ◌+◌, ◌≤◌, ◌≡◌, refl, true, Option, some, List, [], ◌∷◌, map, arith, inl, inr, get_or, is_id,
  ◌==◌, Bool-cases,
}
use seans.Table.{find}
use seans.Table.Laws.{find-test, find-update_where}
use seans.Http.{ok}
use seans.Models.{Database, Task, Worker, is_leased}
use seans.Config.{Settings, minutes}
use seans.TaskQueue.{lease_expired, reclaim_expired_tasks, save_task, extend_lease}
use seans.TaskQueue.Reclaim.{reclaim_one, reclaim-map}
use seans.WorkerApi.{HeartbeatBody, worker_heartbeat, get_task}
use seans.WorkerApi.Finish.{task_row, same_row}

reclaim_one-id : (now : ℕ) (u : Task) → (reclaim_one now u).id ≡ u.id
unfolding reclaim_one
reclaim_one-id now u = ground arith

-- A row that the job sends to itself is found unchanged.
find-reclaimed :
    (task_id : Option ℕ) (now : ℕ) (t : Task) (tasks : List Task)
    → find (λ u. is_id task_id u.id) tasks ≡ some t
    → reclaim_one now t ≡ t
    → find (λ u. is_id task_id u.id) (map (reclaim_one now) tasks) ≡ some t
unfolding find
find-reclaimed task_id now t [] e stays = absurd (ground arith)
find-reclaimed task_id now t (u ∷ tasks) e stays =
    ground (arith, find-reclaimed task_id now t tasks, reclaim_one-id now u)

held :
    (clock lease : ℕ) (t : Task)
    → t.lease_expires_at ≡ some lease
    → clock ≤ lease
    → is_leased t.status ≡ true
    → reclaim_one clock t ≡ t
unfolding reclaim_one
held clock lease t e within leased = ground arith

-- The task that a heartbeat leaves.
abbrev beaten : Settings → ℕ → HeartbeatBody → Task → Task
beaten settings now body t = record t {
  progress_pct = get_or body.progress_pct t.progress_pct;
  speed_bps = get_or body.speed_bps t.speed_bps;
  stage = get_or body.stage t.stage;
  lease_expires_at = some (now + minutes settings.lease_minutes);
}

heartbeat_row :
    (settings : Settings) (now : ℕ) (body : HeartbeatBody) (worker : Worker) (db : Database)
    (t : Task)
    → task_row body.task_id db ≡ some t
    → (worker_heartbeat settings now body worker db).0 ≡ ok tt
    → ((worker_heartbeat settings now body worker db).1 ≡ save_task (beaten settings now body t) db)
      × (is_id t.worker_id worker.id ≡ true)
unfolding worker_heartbeat get_task extend_lease
heartbeat_row settings now body worker db t e accepted =
    elim (Bool-cases (is_id t.worker_id worker.id)) [
      | inr other ↦ let refused = rw (e, other) at accepted in absurd (ground arith)
      | inl own ↦ elim (Bool-cases (lease_expired now t)) [
        | inl late ↦ let refused = rw (e, own, late) at accepted in absurd (ground arith)
        | inr live ↦ (rw (e, own, live), own)
      ]
    ]

-- After a heartbeat that was accepted for a task that is assigned or downloading, the reaper leaves
-- the task to its worker for the length of a lease from that time: a run of the job at any
-- time until then leaves the row with its worker, its status and the new lease.
pub heartbeat_protects :
    (settings : Settings) (now clock : ℕ) (body : HeartbeatBody) (worker : Worker) (db : Database)
    (t : Task)
    → task_row body.task_id db ≡ some t
    → is_leased t.status ≡ true
    → (worker_heartbeat settings now body worker db).0 ≡ ok tt
    → clock ≤ now + minutes settings.lease_minutes
    → let db' = (reclaim_expired_tasks clock (worker_heartbeat settings now body worker db).1).1 in
      (t' : Task) × (task_row body.task_id db' ≡ some t')
      × (t'.status ≡ t.status)
      × (is_id t'.worker_id worker.id ≡ true)
      × (t'.lease_expires_at ≡ some (now + minutes settings.lease_minutes))
heartbeat_protects settings now clock body worker db t e leased accepted within =
    let (left, own) = heartbeat_row settings now body worker db t e accepted in
    let m = beaten settings now body t in
    let test = find-test (λ u. is_id body.task_id u.id) db.tasks t e in
    let row =
      find-update_where (λ u. is_id body.task_id u.id) (λ u. u.id == t.id) t m db.tasks e test
        (λ u. same_row body.task_id t.id u.id test) in
    let kept =
      find-reclaimed body.task_id clock m _ row
        (held clock (now + minutes settings.lease_minutes) m refl within leased) in
    rw (left, reclaim-map clock (save_task m db)) (m, unfold save_task in kept, refl, own, refl)
