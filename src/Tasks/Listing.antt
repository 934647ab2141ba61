-- ===== src/Tasks/Listing.antt =====
-- `list_tasks`: which tasks, and in which order.
use mathlib.Core.List.{Perm}
use seans.Prelude.{
  ◌≡◌, refl, Bool, true, false, not, List, [], ◌∷◌, ◌&&◌, ◌||◌, arith, ◌==◌, ◌≤◌, All, All-weaken,
}
use seans.Table.{select}
use seans.Table.Order.{IsSorted, order_by-perm, order_by-IsSorted}
use seans.Models.{Database, User, Task, TaskStatus, is_active}
use seans.Tasks.{newer, list_tasks}

newer_asym : (t u : Task) → newer t u ≡ true → newer u t ≡ false
newer_asym t u h = ground arith

newer_trans : (t u v : Task) → newer u t ≡ false → newer v u ≡ false → newer v t ≡ false
newer_trans t u v h k = ground arith

-- A task that has come to its end.
abbrev pub is_over : TaskStatus → Bool
is_over TaskStatus.completed = true
is_over TaskStatus.failed = true
is_over TaskStatus.canceled = true
is_over _ = false

active_not_over : (s : TaskStatus) → is_active s ≡ not (is_over s)
active_not_over s = ground arith

-- The tasks that a user asks for.
abbrev pub is_listed : Bool → User → Task → Bool
is_listed active user t = t.user_id == user.id && (not active || not (is_over t.status))

active_own :
    (user : User) (tasks : List Task)
    → select (λ t. is_active t.status) (select (λ t. t.user_id == user.id) tasks)
      ≡ select (is_listed true user) tasks
unfolding select
active_own user [] = refl
active_own user (t ∷ tasks) = ground (arith, active_own user tasks, active_not_over t.status)

all_own :
    (user : User) (tasks : List Task)
    → select (λ t. t.user_id == user.id) tasks ≡ select (is_listed false user) tasks
unfolding select
all_own user [] = refl
all_own user (t ∷ tasks) = ground (arith, all_own user tasks)

-- No task stands behind one that was created earlier.
abbrev pub IsNewestFirst : List Task → Type 0
IsNewestFirst [] = Unit
IsNewestFirst (t ∷ ts) = All (λ u. u.created_at ≤ t.created_at) ts × IsNewestFirst ts

sorted-IsNewestFirst : (tasks : List Task) → IsSorted newer tasks → IsNewestFirst tasks
sorted-IsNewestFirst [] h = tt
sorted-IsNewestFirst (t ∷ tasks) h =
    (All-weaken _ _ tasks (λ u no. ground arith) h.0, sorted-IsNewestFirst tasks h.1)

-- A user lists their own tasks, each once, or those of them that are not completed, failed or
-- canceled, and no task stands
-- behind one that was created earlier.
pub list_tasks-IsSorted :
    (active : Bool) (user : User) (db : Database)
    → Perm (list_tasks active user db) (select (is_listed active user) db.tasks)
      × IsNewestFirst (list_tasks active user db)
unfolding list_tasks
list_tasks-IsSorted true user db = rw (active_own user db.tasks) (
  order_by-perm newer (select (is_listed true user) db.tasks),
  sorted-IsNewestFirst _ (order_by-IsSorted newer newer_asym newer_trans _),
)
list_tasks-IsSorted false user db = rw (all_own user db.tasks) (
  order_by-perm newer (select (is_listed false user) db.tasks),
  sorted-IsNewestFirst _ (order_by-IsSorted newer newer_asym newer_trans _),
)
