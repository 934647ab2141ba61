-- ===== src/TaskQueue/Drain.antt =====
-- Claims in a row, and the queue that they empty.
use seans.Prelude.{
  ℕ, suc, ◌-◌, ◌≤◌, ◌≡◌, refl, true, false, List, [], ◌∷◌, length, All, All-weaken, arith, inl, inr,
  ◌==◌, ==_self, Option-cases,
}
use seans.Table.{count_where, update_where}
use seans.Models.{Database, Task, is_queued}
use seans.Config.{Settings}
use seans.TaskQueue.{claim_task, next_task, assign_task, save_task}
use seans.TaskQueue.Claim.{can_claim, next_task-All, next_task-queued, next_task-none}

abbrev queued : List Task → ℕ
queued = count_where (λ t. is_queued t.status)

-- How many tasks wait in the queue.
abbrev pub queued_count : Database → ℕ
queued_count db = queued db.tasks

-- Claims in a row, each of a worker at a time, with no row held locked by another transaction.
unfoldable pub claim_each : Settings → List (ℕ × ℕ) → Database → Database
claim_each settings [] db = db
claim_each settings ((worker_id, now) ∷ claims) db =
    claim_each settings claims (claim_task settings (λ _. false) worker_id now db).1

fewer :
    (claimed : Task) (id : ℕ) (tasks : List Task)
    → is_queued claimed.status ≡ false
    → queued (update_where (λ t. t.id == id) (λ _. claimed) tasks) ≤ queued tasks
unfolding count_where update_where
fewer claimed id [] off = omega arith
fewer claimed id (t ∷ tasks) off = ground (arith, fewer claimed id tasks off)

module _ (settings : Settings) (worker_id now : ℕ) where
  -- The list with the row of `t` assigned.
  abbrev with_assigned : Task → List Task → List Task
  with_assigned t tasks =
      update_where (λ u. u.id == t.id) (λ _. assign_task settings worker_id now t) tasks

  abbrev Leaves : List Task → Task → Type 0
  Leaves tasks t = is_queued t.status ≡ true → suc (queued (with_assigned t tasks)) ≤ queued tasks

  all-Leaves : (tasks : List Task) → All (Leaves tasks) tasks
  unfolding count_where update_where
  all-Leaves [] = tt
  all-Leaves (t ∷ tasks) = (
    λ on.
        let rest = fewer (assign_task settings worker_id now t) t.id tasks refl in
        ground (arith, ==_self t.id),
    All-weaken (Leaves tasks) (Leaves (t ∷ tasks)) tasks
        (λ u less on. let fewer_left = less on in ground arith) (all-Leaves tasks),
  )

  pub none_queued :
      (tasks : List Task) → All (λ u. can_claim (λ _. false) u ≡ false) tasks → queued tasks ≡ 0
  unfolding count_where
  none_queued [] h = refl
  none_queued (t ∷ tasks) h = ground (arith, h.0, none_queued tasks h.1)

  -- A claim takes a task out of a queue that is not empty.
  claim-less :
      (db : Database)
      → queued_count (claim_task settings (λ _. false) worker_id now db).1 ≤ queued_count db - 1
  unfolding claim_task save_task
  claim-less db = elim (Option-cases (next_task (λ _. false) db.tasks)) [
    | inl e ↦
        let empty = none_queued db.tasks (next_task-none (λ _. false) db.tasks e) in
        rw e (omega arith)
    | inr (t, e) ↦
        let (on, _) = next_task-queued (λ _. false) db.tasks t e in
        let less =
          next_task-All (λ _. false) (Leaves db.tasks) db.tasks t (all-Leaves db.tasks) e on in
        rw e (omega arith)
  ]

-- As many claims as there are queued tasks, or more, of whichever workers at whichever times, leave no
-- task queued: none of them is passed over for ever. (No other transaction runs beside them.)
pub claims_drain_queue :
    (settings : Settings) (claims : List (ℕ × ℕ)) (db : Database)
    → queued_count db ≤ length claims
    → queued_count (claim_each settings claims db) ≡ 0
unfolding claim_each
claims_drain_queue settings [] db enough = omega arith
claims_drain_queue settings ((worker_id, now) ∷ claims) db enough =
    let less = claim-less settings worker_id now db in
    claims_drain_queue settings claims _ (omega arith)
