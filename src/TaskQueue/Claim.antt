-- ===== src/TaskQueue/Claim.antt =====
-- The task that a claim picks, and two claims that run at the same time.
use mathlib.Core.List.{Mem}
use seans.Prelude.{
  ◌⊎◌, inl, inr, ◌==◌, All-weaken, refl, Option-cases, ℕ, ◌≡◌, ◌≢◌, Bool, true, false, not, none,
  some, List, [], ◌∷◌, All, arith, ◌&&◌, ◌+◌, ◌≤◌, map, ap, if◌then◌else◌,
}
use seans.Prelude.Int.{◌≤ℤ◌, pos_part, neg_part}
use seans.Table.{select, order_by, limit_one, insert_by, update_where}
use seans.Table.Laws.{select-All, select-tests, update_where-map, all_mem}
use seans.Table.Order.{Follows, order_by-All, limit_one-order_by}
use seans.Models.{Database, Task, TaskStatus, is_queued}
use seans.Config.{Settings, minutes}
use seans.TaskQueue.{claims_before, next_task, claim_task, save_task, assign_task}

claims_before_asym : (t u : Task) → claims_before t u ≡ true → claims_before u t ≡ false
unfolding claims_before
claims_before_asym t u h = ground arith

claims_before_trans :
    (t u v : Task)
    → claims_before u t ≡ false
    → claims_before v u ≡ false
    → claims_before v t ≡ false
unfolding claims_before
claims_before_trans t u v h k = ground arith

module _ (locked : ℕ → Bool) where
  abbrev pub can_claim : Task → Bool
  can_claim t = is_queued t.status && not (locked t.id)

  limit_one-All {κ} :
      (P : Task → Type κ) (xs : List Task) (t : Task) → All P xs → limit_one xs ≡ some t → P t
  limit_one-All P [] t h e = absurd (ground arith)
  limit_one-All P (x ∷ xs) t h e = ground arith

  -- What all tasks satisfy, the next task does.
  pub next_task-All {κ} :
      (P : Task → Type κ) (tasks : List Task) (t : Task)
      → All P tasks
      → next_task locked tasks ≡ some t
      → P t
  unfolding next_task
  next_task-All P tasks t h e =
      limit_one-All P _ t (order_by-All claims_before P _ (select-All can_claim P tasks h)) e

  pub next_task-queued :
      (tasks : List Task) (t : Task)
      → next_task locked tasks ≡ some t
      → (is_queued t.status ≡ true) × (locked t.id ≡ false)
  unfolding next_task
  next_task-queued tasks t e =
      let test =
        limit_one-All (λ u. can_claim u ≡ true) _ t
          (order_by-All claims_before _ _ (select-tests can_claim tasks)) e in
      ground arith

  select-Follows :
      (tasks : List Task) (t : Task)
      → All (Follows claims_before t) (select can_claim tasks)
      → All (λ u. can_claim u ≡ true → claims_before u t ≡ false) tasks
  unfolding select
  select-Follows [] t h = tt
  select-Follows (u ∷ tasks) t h = ground (arith, select-Follows tasks t)

  -- No task that could be claimed has a higher priority, or the same one and an earlier time.
  pub next_task-first :
      (tasks : List Task) (t : Task)
      → next_task locked tasks ≡ some t
      → All (λ u. can_claim u ≡ true → claims_before u t ≡ false) tasks
  unfolding next_task
  next_task-first tasks t e =
      select-Follows tasks t
        (limit_one-order_by claims_before claims_before_asym claims_before_trans _ t e)

-- `t` has at least the priority of `u`, and is no younger if they have the same.
abbrev pub IsAhead : Task → Task → Type 0
IsAhead t u = (u.priority ≤ℤ t.priority) × (u.priority ≡ t.priority → t.created_at ≤ u.created_at)

not_before-IsAhead : (t u : Task) → claims_before u t ≡ false → IsAhead t u
unfolding claims_before
not_before-IsAhead t u h =
    (ground arith, λ same. ground (arith, ap pos_part same, ap neg_part same))

all_ahead :
    (locked : ℕ → Bool) (t : Task) (tasks : List Task)
    → All (λ u. can_claim locked u ≡ true → claims_before u t ≡ false) tasks
    → All (λ u. u.status ≡ TaskStatus.queued → locked u.id ≡ false → IsAhead t u) tasks
all_ahead locked t tasks =
    All-weaken _ _ tasks (λ u h queued free. not_before-IsAhead t u (h (rw (queued, free) refl)))

-- What a claim of `t` amounts to.
pub record IsClaim (settings : Settings) (locked : ℕ → Bool) (worker_id now : ℕ) (db : Database)
    (t : Task) : Type 0 where
  pub row : Mem t db.tasks
  pub queued : t.status ≡ TaskStatus.queued
  pub unlocked : locked t.id ≡ false
  pub first : All (λ u. u.status ≡ TaskStatus.queued → locked u.id ≡ false → IsAhead t u) db.tasks
  pub result :
      let claimed : Task = record t {
        status = TaskStatus.assigned;
        worker_id = some worker_id;
        lease_expires_at = some (now + minutes settings.lease_minutes);
        attempts = t.attempts + 1;
      } in
      claim_task settings locked worker_id now db ≡ (
        some claimed,
        record db { tasks = map (λ u. if u.id == t.id then claimed else u) db.tasks },
      )

limit_one-ne-none : (x : Task) (xs : List Task) → limit_one (insert_by claims_before x xs) ≢ none
unfolding insert_by
limit_one-ne-none x [] e = cc
limit_one-ne-none x (y ∷ ys) e = ground arith

limit_one-none : (xs : List Task) → limit_one (order_by claims_before xs) ≡ none → xs ≡ []
unfolding order_by
limit_one-none [] e = refl
limit_one-none (x ∷ xs) e = absurd (limit_one-ne-none x (order_by claims_before xs) e)

select-nil : (p : Task → Bool) (xs : List Task) → select p xs ≡ [] → All (λ x. p x ≡ false) xs
unfolding select
select-nil p [] e = tt
select-nil p (x ∷ xs) e = ground (arith, select-nil p xs)

pub next_task-none :
    (locked : ℕ → Bool) (tasks : List Task)
    → next_task locked tasks ≡ none
    → All (λ u. can_claim locked u ≡ false) tasks
unfolding next_task
next_task-none locked tasks e = select-nil (can_claim locked) tasks (limit_one-none _ e)

-- A queued task that a claim passes over is locked.
all_locked :
    (locked : ℕ → Bool) (tasks : List Task)
    → All (λ u. can_claim locked u ≡ false) tasks
    → All (λ u. u.status ≡ TaskStatus.queued → locked u.id ≡ true) tasks
all_locked locked tasks =
    All-weaken _ _ tasks
      (λ u h queued. let no : not (locked u.id) ≡ false = rw queued at h in ground arith)

module _ (settings : Settings) (locked : ℕ → Bool) (worker_id now : ℕ) (db : Database) where
  -- A claim either finds that every queued task is locked, and changes nothing; or it picks a queued
  -- row that no other transaction holds, such that no other such row has a higher priority, or the
  -- same one and an earlier time, and it assigns that one to the worker under a lease from now, with
  -- one more attempt, and changes nothing else.
  pub claim_task_cases :
      ((t : Task) × IsClaim settings locked worker_id now db t)
      ⊎ (All (λ u. u.status ≡ TaskStatus.queued → locked u.id ≡ true) db.tasks
          × (claim_task settings locked worker_id now db ≡ (none, db)))
  unfolding claim_task save_task
  claim_task_cases = elim (Option-cases (next_task locked db.tasks)) [
    | inl e ↦ inr (all_locked locked db.tasks (next_task-none locked db.tasks e), rw e)
    | inr (t, e) ↦
        let (queued, unlocked) = next_task-queued locked db.tasks t e in
        inl (
          t,
          record {
            row = next_task-All locked (λ u. Mem u db.tasks) db.tasks t (all_mem db.tasks) e;
            queued = ground arith;
            unlocked = unlocked;
            first = all_ahead locked t db.tasks (next_task-first locked db.tasks t e);
            result = rw (e, update_where-map) refl;
          },
        )
  ]

-- A claim that hands out `t'` took it from the next row.
claim_task_inv :
    (settings : Settings) (locked : ℕ → Bool) (worker_id now : ℕ) (db : Database) (t' : Task)
    → (claim_task settings locked worker_id now db).0 ≡ some t'
    → (t : Task) × (next_task locked db.tasks ≡ some t)
      × (t' ≡ assign_task settings worker_id now t)
      × ((claim_task settings locked worker_id now db).1 ≡ save_task t' db)
unfolding claim_task
claim_task_inv settings locked worker_id now db t' h =
    elim (Option-cases (next_task locked db.tasks)) [
      | inl e ↦ absurd (ground arith)
      | inr (t, e) ↦ (t, e, ground arith, ground arith)
    ]

claimed_not_queued :
    (id : ℕ) (claimed : Task) (tasks : List Task)
    → is_queued claimed.status ≡ false
    → All
        (λ u. is_queued u.status ≡ true → u.id ≢ id)
        (update_where (λ t. t.id == id) (λ _. claimed) tasks)
unfolding update_where
claimed_not_queued id claimed [] h = tt
claimed_not_queued id claimed (t ∷ tasks) h = ground (arith, claimed_not_queued id claimed tasks h)

-- Two claims never hand out one task. The second runs either beside the first, which still holds its
-- row locked, or after the commit of the first, whatever is locked then.
pub claims_exclusive :
    (settings : Settings) (locked locked' later_locked : ℕ → Bool) (w w' now now' : ℕ)
    (db : Database) (t u v : Task)
    → (claim_task settings locked w now db).0 ≡ some t
    → locked' t.id ≡ true
    → (claim_task settings locked' w' now' db).0 ≡ some u
    → (claim_task settings later_locked w' now' (claim_task settings locked w now db).1).0 ≡ some v
    → (u.id ≢ t.id) × (v.id ≢ t.id)
claims_exclusive settings locked locked' later_locked w w' now now' db t u v first held beside
      after =
    let (r, row, made, left) = claim_task_inv settings locked w now db t first in
    let (x, next, same, _) = claim_task_inv settings locked' w' now' db u beside in
    let (y, later, also, _) =
      claim_task_inv settings later_locked w' now' (claim_task settings locked w now db).1 v
        after in
    let later' : next_task later_locked (save_task t db).tasks ≡ some y = rw left at later in
    let (_, free) = next_task-queued locked' db.tasks x next in
    let (queued, _) = next_task-queued later_locked (save_task t db).tasks y later' in
    let others =
      next_task-All later_locked _ _ y (claimed_not_queued t.id t db.tasks (ground arith))
        (unfold save_task in later') in
    (ground arith, ground arith)
