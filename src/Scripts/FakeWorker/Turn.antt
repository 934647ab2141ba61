-- ===== src/Scripts/FakeWorker/Turn.antt =====
-- The task that a turn of the fake worker completes.
use seans.Prelude.{
  ℕ, String, Bool, false, Option, none, some, [], ◌∷◌, ◌≡◌, refl, sym, ap, ◌∙◌, arith, is_id, ◌==◌,
  Option-cases, Bool-cases, inl, inr,
}
use seans.Prelude.Int.{pos}
use seans.Table.{find}
use seans.Config.{Settings}
use seans.TaskQueue.{save_task, claim_task, claim_row, next_task}
use seans.TaskQueue.Claim.{next_task-queued}
use seans.Http.{HttpException, http, Action, Result, ok, raise, resume, pure}
use seans.Table.Laws.{find-update_where, find-test}
use seans.Models.{Database, Task, TaskStatus, Worker}
use seans.Lifecycle.{Env}
use seans.WorkerApi.{
  get_worker, claim_response, ClaimResponse, with_worker, worker_claim, worker_complete,
  complete_task,
}
use seans.WorkerApi.Auth.{get_worker_cases}
use seans.WorkerApi.Finish.{task_row, same_row}
use seans.Scripts.FakeWorker.{
  heartbeats, finish, report, claim, send_manifest, complete, deliver, turn, complete_body,
}

-- A chain that returned, one step after the other.
resume-ok {ℓ κ μ} :
    {S : Type ℓ} {A : Type κ} {B : Type μ} (f : A → Action S B) (r : Result A × S) (b : B)
    → (resume f r).0 ≡ ok b
    → (a : A) × (r.0 ≡ ok a) × (resume f r ≡ f a r.1)
resume-ok f (ok a, s) b e = (a, refl, refl)
resume-ok f (raise x, s) b e = absurd (ground arith)

raised : (x : HttpException) (r : Result (Unit {0})) → r ≡ raise x → r ≡ ok tt → ⊥
raised x r e f = ground arith

-- A completed task, with nothing reserved.
abbrev pub IsCompleted : ℕ → Database → Type 0
IsCompleted id db =
    (t : Task) × (task_row (some id) db ≡ some t)
    × (t.status ≡ TaskStatus.completed)
    × (t.reserved_bytes ≡ pos 0)

worker_complete-IsCompleted :
    (now id : ℕ) (w : Worker) (db : Database)
    → (worker_complete now (complete_body id) w db).0 ≡ ok tt
    → IsCompleted id (worker_complete now (complete_body id) w db).1
unfolding worker_complete save_task
worker_complete-IsCompleted now id w db e = elim (Option-cases (task_row (some id) db)) [
  | inl missing ↦ absurd (raised (http 404 "Task not found") _ (rw missing refl) e)
  | inr (t, found) ↦ elim (Bool-cases (is_id t.worker_id w.id)) [
    | inl mine ↦
        let same = find-test (λ u. is_id (some id) u.id) db.tasks t found in
        let saved =
          find-update_where (λ u. is_id (some id) u.id) (λ u. u.id == t.id) t (complete_task t)
            db.tasks found same (λ u hit. same_row (some id) t.id u.id same hit) in
        rw (found, mine) (complete_task t, saved, refl, refl)
    | inr other ↦
        absurd (raised (http 409 "Task not assigned to this worker") _ (rw (found, other) refl) e)
  ]
]

-- A claim that hands out a task hands out the next one of the queue.
worker_claim-next :
    (settings : Settings) (locked : ℕ → Bool) (now : ℕ) (w : Worker) (db : Database)
    (c : ClaimResponse)
    → (worker_claim settings locked now w db).0 ≡ ok (some c)
    → (t : Task) × (next_task locked db.tasks ≡ some t) × (t.id ≡ c.task_id)
unfolding worker_claim claim_task claim_row claim_response
worker_claim-next settings locked now w db c e = elim (Option-cases (next_task locked db.tasks)) [
  | inl empty ↦ let no = rw empty at e in absurd (ground arith)
  | inr (t, next) ↦
      let release_of = find (λ r. r.id == t.torrent_release_id) db.torrent_releases in
      elim (Option-cases release_of) [
        | inl missing ↦ let no = rw (next, save_task, missing) at e in absurd (ground arith)
        | inr (r, found) ↦ let made = rw (next, save_task, found) at e in (t, next, ground arith)
      ]
]

module _ (env : Env) (clock : ℕ → ℕ) (token : String) where
  claim-next :
      (locked : ℕ → Bool) (db : Database) (c : ClaimResponse)
      → (claim env clock token locked db).0 ≡ ok (some c)
      → (t : Task) × (next_task locked db.tasks ≡ some t) × (t.id ≡ c.task_id)
  unfolding claim with_worker
  claim-next locked db c e = elim (get_worker_cases env.sha256 (clock 1) token db) [
    | inl (x, refused) ↦ let no = rw refused at e in absurd (ground arith)
    | inr (w, ws, passed) ↦
        worker_claim-next env.settings locked (clock 1) w (record db { workers = ws }) c
          (rw passed at e)
  ]

  complete-IsCompleted :
      (id : ℕ) (db : Database)
      → (complete env clock token id db).0 ≡ ok tt
      → IsCompleted id (complete env clock token id db).1
  unfolding complete with_worker
  complete-IsCompleted id db e =
      let (w, _, after) =
        resume-ok (worker_complete (clock 6) (complete_body id))
          (get_worker env.sha256 (clock 6) token db) tt e in
      rw after (worker_complete-IsCompleted (clock 6) id w _ (ap (λ r. r.0) (sym after) ∙ e))

  finish-IsCompleted :
      (id task_id : ℕ) (db : Database)
      → (finish env clock token task_id db).0 ≡ ok id
      → (task_id ≡ id) × IsCompleted id (finish env clock token task_id db).1
  unfolding finish
  finish-IsCompleted id task_id db e =
      let (u, passed, same) =
        resume-ok (λ _. pure task_id) (complete env clock token task_id db) id e in
      let answer : ok task_id ≡ ok id = ap (λ r. r.0) (sym same) ∙ e in
      let eq : task_id ≡ id = ground arith in
      (eq, rw (same, sym eq) (complete-IsCompleted task_id db passed))

  report-IsCompleted :
      (id task_id : ℕ) (db : Database)
      → (report env clock token task_id db).0 ≡ ok id
      → (task_id ≡ id) × IsCompleted id (report env clock token task_id db).1
  unfolding report
  report-IsCompleted id task_id db e =
      let (_, _, after) =
        resume-ok (λ _. finish env clock token task_id)
          (heartbeats env clock token task_id (0 ∷ 1 ∷ 2 ∷ []) db) id e in
      rw after (finish-IsCompleted id task_id _ (ap (λ r. r.0) (sym after) ∙ e))

  deliver-IsCompleted :
      (new_id : ℕ → ℕ) (claimed : Option ClaimResponse) (id : ℕ) (db : Database)
      → (deliver env clock token new_id claimed db).0 ≡ ok id
      → (c : ClaimResponse) × (claimed ≡ some c)
        × (c.task_id ≡ id)
        × IsCompleted id (deliver env clock token new_id claimed db).1
  unfolding deliver report
  deliver-IsCompleted new_id none id db e = absurd (ground arith)
  deliver-IsCompleted new_id (some task) id db e =
      let (_, _, after) =
        resume-ok (λ _. report env clock token task.task_id)
          (send_manifest env clock token new_id task.task_id db) id e in
      let (same, completed) =
        report-IsCompleted id task.task_id _ (ap (λ r. r.0) (sym after) ∙ e) in
      (task, refl, same, rw after completed)

  -- A turn that returns an id has completed the task of that id, which reserves nothing any more;
  -- and that task is the one of the queue that was the next to claim when the turn began.
  pub turn-IsCompleted :
      (locked : ℕ → Bool) (new_id : ℕ → ℕ) (db : Database) (id : ℕ)
      → (turn env clock token locked new_id db).0 ≡ ok id
      → IsCompleted id (turn env clock token locked new_id db).1
        × (t : Task) × (next_task locked db.tasks ≡ some t)
        × (t.id ≡ id)
        × (t.status ≡ TaskStatus.queued)
        × (locked t.id ≡ false)
  unfolding turn
  turn-IsCompleted locked new_id db id e =
      let (claimed, got, after) =
        resume-ok (deliver env clock token new_id) (claim env clock token locked db) id e in
      let (c, some_c, same, completed) =
        deliver-IsCompleted new_id claimed id _ (ap (λ r. r.0) (sym after) ∙ e) in
      let (t, next, is_c) = claim-next locked db c (got ∙ ap ok some_c) in
      let (queued, unlocked) = next_task-queued locked db.tasks t next in
      (rw after completed, t, next, is_c ∙ same, ground arith, unlocked)
