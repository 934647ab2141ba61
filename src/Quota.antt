-- ===== src/Quota.antt =====
-- app/services/quota.py: the bytes that a user has used and reserved, and the limit.
pub mod Sums
use seans.Prelude.{ℕ, Bool, false, Option, none, some, List, [], ◌∷◌, ◌&&◌, ◌==◌, if◌then◌else◌}
use seans.Prelude.Int.{ℤ, pos, ◌+ℤ◌, leb_ℤ}
use seans.Table.{select, find, sum_by, join}
use seans.Models.{Database, User, Task, TaskFile, is_active, is_uploaded}
use seans.Plans.{is_plan_expired, free_plan}

-- Sum of uploaded file sizes for the user.
unfoldable pub get_used_bytes : Database → ℕ → ℤ
get_used_bytes db user_id =
    sum_by (λ r. r.0.size_bytes)
      (select (λ r. r.1.user_id == user_id && is_uploaded r.0.status)
        (join (λ file task. task.id == file.task_id) db.task_files db.tasks))

-- Sum of reserved bytes for active tasks.
unfoldable pub get_reserved_bytes : Database → ℕ → ℤ
get_reserved_bytes db user_id =
    sum_by (λ task. task.reserved_bytes)
      (select (λ task. task.user_id == user_id && is_active task.status) db.tasks)

-- The limit that applies at the time `clock`.
unfoldable pub get_effective_quota_bytes : User → ℕ → ℤ
unfolding is_plan_expired
get_effective_quota_bytes user clock =
    if is_plan_expired user none clock then free_plan.quota_bytes else user.quota_bytes

unfoldable pub check_quota : Database → ℕ → ℤ → ℕ → Bool
check_quota db user_id needed clock = elim (find (λ user. user.id == user_id) db.users) [
  | none ↦ false
  | some user ↦
      leb_ℤ (get_used_bytes db user_id +ℤ get_reserved_bytes db user_id +ℤ needed)
        (get_effective_quota_bytes user clock)
]

-- (used_bytes, reserved_bytes, effective_quota_bytes)
unfoldable pub get_quota_usage : Database → ℕ → ℕ → ℤ × ℤ × ℤ
get_quota_usage db user_id clock = elim (find (λ user. user.id == user_id) db.users) [
  | none ↦ (pos 0, pos 0, pos 0)
  | some user ↦ (
    get_used_bytes db user_id,
    get_reserved_bytes db user_id,
    get_effective_quota_bytes user clock,
  )
]
