-- ===== src/Lifecycle/Invariant.antt =====
-- Every request keeps every task sound.
use seans.Prelude.{
  ℕ, ◌+◌, inl, inr, Bool, List, [], ◌∷◌, ◌&&◌, All, All-append, All-map, arith, ◌==◌, is_id, get_or,
  Option-cases, Bool-cases,
}
use seans.Table.{find}
use seans.Table.Laws.{find-All, update_where-All}
use seans.Models.{Database, User, Task, Worker}
use seans.Config.{minutes}
use seans.TaskQueue.{save_task, next_task, reclaim_expired_tasks}
use seans.TaskQueue.Reclaim.{reclaim_one, reclaim-map}
use seans.TaskQueue.Claim.{next_task-All, next_task-queued}
use seans.WorkerApi.{
  ManifestBody, HeartbeatBody, CompleteBody, FailBody, worker_claim, worker_manifest,
  worker_heartbeat, worker_complete, worker_fail, total_size,
}
use seans.WorkerApi.Auth.{with_worker-keeps}
use seans.Tasks.{create_task, cancel_task, new_task}
use seans.Lifecycle.{Env, Request, serve, serve_all}
use seans.Lifecycle.Soundness.{
  IsSound, canceled-IsSound, new_task-IsSound, assign_task-IsSound, manifested-IsSound,
  heartbeat-IsSound, complete_task-IsSound, failed_task-IsSound, reclaim_one-IsSound,
}

abbrev pub AllSound : Database → Type 0
AllSound db = All IsSound db.tasks

save_task-AllSound :
    (t : Task) (db : Database) → IsSound t → AllSound db → AllSound (save_task t db)
unfolding save_task
save_task-AllSound t db s h = update_where-All _ IsSound _ db.tasks (λ _ _ _. s) h

cancel-AllSound :
    (user : User) (task_id : ℕ) (db : Database)
    → AllSound db
    → AllSound (cancel_task user task_id db).1
unfolding cancel_task
cancel-AllSound user task_id db h =
    elim (Option-cases (find (λ t. t.id == task_id && t.user_id == user.id) db.tasks)) [
      | inl e ↦ rw e h
      | inr (t, e) ↦
          let sound = canceled-IsSound t (find-All _ IsSound db.tasks t h e) in
          rw e (ground (arith, save_task-AllSound _ db sound h))
    ]

module _ (env : Env) (now : ℕ) where
  pub claim-AllSound :
      (locked : ℕ → Bool) (worker : Worker) (db : Database)
      → AllSound db
      → AllSound (worker_claim env.settings locked now worker db).1
  unfolding worker_claim
  claim-AllSound locked worker db h = elim (Option-cases (next_task locked db.tasks)) [
    | inl e ↦ rw e h
    | inr (t, e) ↦
        let sound =
          assign_task-IsSound env.settings worker.id now t (next_task-queued locked db.tasks t e).0
            (next_task-All locked IsSound db.tasks t h e) in
        rw e (ground (arith, save_task-AllSound _ db sound h))
  ]

  pub manifest-AllSound :
      (new_id : ℕ → ℕ) (body : ManifestBody) (worker : Worker) (db : Database)
      → AllSound db
      → AllSound (worker_manifest env.str_uuid env.presign_put new_id body worker db).1
  unfolding worker_manifest
  manifest-AllSound new_id body worker db h =
      elim (Option-cases (find (λ t. is_id body.task_id t.id) db.tasks)) [
        | inl e ↦ rw e h
        | inr (t, e) ↦
            let sound =
              manifested-IsSound (total_size (get_or body.files [])) t
                (find-All _ IsSound db.tasks t h e) in
            rw e (ground (arith, save_task-AllSound _ db sound h))
      ]

  pub heartbeat-AllSound :
      (body : HeartbeatBody) (worker : Worker) (db : Database)
      → AllSound db
      → AllSound (worker_heartbeat env.settings now body worker db).1
  unfolding worker_heartbeat
  heartbeat-AllSound body worker db h =
      elim (Option-cases (find (λ t. is_id body.task_id t.id) db.tasks)) [
        | inl e ↦ rw e h
        | inr (t, e) ↦
            let sound =
              heartbeat-IsSound t worker.id (get_or body.progress_pct t.progress_pct)
                (get_or body.speed_bps t.speed_bps) (get_or body.stage t.stage)
                (now + minutes env.settings.lease_minutes) in
            let old = find-All _ IsSound db.tasks t h e in
            rw e (elim (Bool-cases (is_id t.worker_id worker.id)) [
              | inl mine ↦ ground (arith, save_task-AllSound _ db (sound mine old) h)
              | inr other ↦ rw other h
            ])
      ]

  pub complete-AllSound :
      (body : CompleteBody) (worker : Worker) (db : Database)
      → AllSound db
      → AllSound (worker_complete now body worker db).1
  unfolding worker_complete
  complete-AllSound body worker db h =
      elim (Option-cases (find (λ t. is_id body.task_id t.id) db.tasks)) [
        | inl e ↦ rw e h
        | inr (t, e) ↦
            let sound = complete_task-IsSound t (find-All _ IsSound db.tasks t h e) in
            rw e (ground (arith, save_task-AllSound _ db sound h))
      ]

  fail-AllSound :
      (body : FailBody) (worker : Worker) (db : Database)
      → AllSound db
      → AllSound (worker_fail body worker db).1
  unfolding worker_fail
  fail-AllSound body worker db h =
      elim (Option-cases (find (λ t. is_id body.task_id t.id) db.tasks)) [
        | inl e ↦ rw e h
        | inr (t, e) ↦
            let sound =
              failed_task-IsSound (get_or body.error "Unknown error") t
                (find-All _ IsSound db.tasks t h e) in
            rw e (ground (arith, save_task-AllSound _ db sound h))
      ]

create-AllSound :
    (task_id item_id now : ℕ) (user : User) (release_id : ℕ) (db : Database)
    → AllSound db
    → AllSound (create_task task_id item_id now user release_id db).1
unfolding create_task
create-AllSound task_id item_id now user release_id db h =
    elim (Option-cases (find (λ r. r.id == release_id) db.torrent_releases)) [
      | inl e ↦ rw e h
      | inr (r, e) ↦
          let sound = new_task-IsSound task_id now user r in
          rw e (
            ground
              (arith, All-append IsSound db.tasks (new_task task_id now user r ∷ []) h (sound, tt)))
    ]

reap-AllSound : (now : ℕ) (db : Database) → AllSound db → AllSound (reclaim_expired_tasks now db).1
reap-AllSound now db h =
    rw (reclaim-map now db) (All-map IsSound (reclaim_one now) db.tasks (reclaim_one-IsSound now) h)

serve-AllSound :
    (env : Env) (request : Request) (db : Database) → AllSound db → AllSound (serve env request db)
unfolding serve
serve-AllSound env (Request.create task_id item_id now user release_id) db h =
    create-AllSound task_id item_id now user release_id db h
serve-AllSound env (Request.cancel user task_id) db h = cancel-AllSound user task_id db h
serve-AllSound env (Request.claim now token locked) db h =
    with_worker-keeps AllSound env.sha256 now token _ db (λ _ s. s) (claim-AllSound env now locked)
      h
serve-AllSound env (Request.manifest now token new_id body) db h =
    with_worker-keeps AllSound env.sha256 now token _ db (λ _ s. s)
      (manifest-AllSound env now new_id body) h
serve-AllSound env (Request.heartbeat now token body) db h =
    with_worker-keeps AllSound env.sha256 now token _ db (λ _ s. s)
      (heartbeat-AllSound env now body) h
serve-AllSound env (Request.complete now token body) db h =
    with_worker-keeps AllSound env.sha256 now token _ db (λ _ s. s) (complete-AllSound env now body)
      h
serve-AllSound env (Request.fail now token body) db h =
    with_worker-keeps AllSound env.sha256 now token _ db (λ _ s. s) (fail-AllSound env now body) h
serve-AllSound env (Request.reap now) db h = reap-AllSound now db h

-- After any sequence of requests, answered or refused, every task is sound.
pub serve_all-AllSound :
    (env : Env) (requests : List Request) (db : Database)
    → AllSound db
    → AllSound (serve_all env requests db)
unfolding serve_all
serve_all-AllSound env [] db h = h
serve_all-AllSound env (request ∷ requests) db h =
    serve_all-AllSound env requests (serve env request db) (serve-AllSound env request db h)
