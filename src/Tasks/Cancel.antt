-- ===== src/Tasks/Cancel.antt =====
-- `cancel_task`: what it refuses, and what it gives back.
use seans.Prelude.{
  ℕ, ◌≡◌, ◌≢◌, ◌⊎◌, refl, Bool, true, false, none, some, List, [], ◌∷◌, ◌&&◌, All, arith, inl, inr,
  ◌==◌, Option-cases, Bool-cases, ==_self,
}
use seans.Prelude.Int.{ℤ, pos, ◌+ℤ◌, int_laws}
use seans.Http.{ok, raise, http}
use seans.Table.{select, find, sum_by, update_where}
use seans.Table.Laws.{find-test, find-All}
use seans.Models.{Database, User, Task, TaskStatus, is_active, is_cancelable}
use seans.Quota.{get_reserved_bytes}
use seans.TaskQueue.{save_task}
use seans.Tasks.{cancel_task}

-- The primary key: no two tasks have one id.
abbrev pub IdsUnique : List Task → Type 0
IdsUnique [] = Unit
IdsUnique (t ∷ tasks) = All (λ u. u.id ≢ t.id) tasks × IdsUnique tasks

pub update_absent :
    (id : ℕ) (f : Task → Task) (tasks : List Task)
    → All (λ u. u.id ≢ id) tasks
    → update_where (λ u. u.id == id) f tasks ≡ tasks
unfolding update_where
update_absent id f [] h = refl
update_absent id f (t ∷ tasks) (other, h) = ground (arith, update_absent id f tasks h)

+ℤ_left_comm : (a b c : ℤ) → a +ℤ (b +ℤ c) ≡ b +ℤ (a +ℤ c)
+ℤ_left_comm a b c = omega int_laws

-- Replacing an active task of the user by an inactive one takes its reservation off the sum.
released :
    (p : Task → Bool) (user_id : ℕ) (t canceled : Task) (tasks : List Task)
    → find p tasks ≡ some t
    → IdsUnique tasks
    → t.user_id == user_id && is_active t.status ≡ true
    → canceled.id ≡ t.id
    → is_active canceled.status ≡ false
    → sum_by
        (λ u. u.reserved_bytes)
        (select (λ u. u.user_id == user_id && is_active u.status) tasks)
      ≡ t.reserved_bytes
        +ℤ sum_by
            (λ u. u.reserved_bytes)
            (select
              (λ u. u.user_id == user_id && is_active u.status)
              (update_where (λ u. u.id == t.id) (λ _. canceled) tasks))
unfolding find sum_by select update_where
released p user_id t canceled [] e unique own same off = absurd (ground arith)
released p user_id t canceled (u ∷ tasks) e (other, unique) own same off = elim (Bool-cases (p u)) [
  | inl found ↦
      let here : u ≡ t = ground arith in
      let rest = update_absent t.id (λ _. canceled) tasks (rw (← here) other) in
      rw (rest, here, own) (ground (arith, ==_self t.id))
  | inr skipped ↦
      let later : find p tasks ≡ some t = ground arith in
      let apart : t.id ≢ u.id = find-All p _ tasks t other later in
      let sums = released p user_id t canceled tasks later unique own same off in
      let keep : (u.id == t.id) ≡ false = ground arith in
      elim (Bool-cases (u.user_id == user_id && is_active u.status)) [
        | inl counted ↦ rw (keep, counted, sums) (+ℤ_left_comm u.reserved_bytes t.reserved_bytes _)
        | inr passed ↦ rw (keep, passed) sums
      ]
]

-- A user cancels only a task of their own, while it is queued or assigned; the reservation is then
-- given back, whole: it is what the user reserved before less what the user reserves after. In any
-- other case the request is refused and nothing changes. (The ids of the tasks are unique.)
pub cancel_task_cases :
    (user : User) (task_id : ℕ) (db : Database)
    → IdsUnique db.tasks
    → ((find (λ t. t.id == task_id && t.user_id == user.id) db.tasks ≡ none)
        × (cancel_task user task_id db ≡ (raise (http 404 "Task not found"), db)))
      ⊎ ((t : Task) × (find (λ t. t.id == task_id && t.user_id == user.id) db.tasks ≡ some t)
          × (is_cancelable t.status ≡ false)
          × (cancel_task user task_id db ≡ (raise (http 409 "Cannot cancel task in progress"), db)))
      ⊎ ((t : Task) × (find (λ t. t.id == task_id && t.user_id == user.id) db.tasks ≡ some t)
          × (is_cancelable t.status ≡ true)
          × ((cancel_task user task_id db).0
              ≡ ok (record t { status = TaskStatus.canceled; reserved_bytes = pos 0 }))
          × (get_reserved_bytes db user.id
              ≡ t.reserved_bytes +ℤ get_reserved_bytes (cancel_task user task_id db).1 user.id))
unfolding cancel_task
cancel_task_cases user task_id db unique =
    elim (Option-cases (find (λ t. t.id == task_id && t.user_id == user.id) db.tasks)) [
      | inl e ↦ inl (e, rw e)
      | inr (t, e) ↦ elim (Bool-cases (is_cancelable t.status)) [
        | inr busy ↦ inr (inl (t, e, busy, rw (e, busy)))
        | inl free ↦
            let test = find-test _ db.tasks t e in
            let own : t.user_id == user.id && is_active t.status ≡ true = ground arith in
            inr (
              inr (
                t,
                e,
                free,
                rw (e, free),
                rw (e, free)
                    (unfold save_task get_reserved_bytes in
                      released _ user.id t _ db.tasks e unique own refl refl),
              ))
      ]
    ]
