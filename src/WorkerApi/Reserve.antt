-- ===== src/WorkerApi/Reserve.antt =====
-- What a manifest does to the reservations.
use seans.Prelude.{
  ℕ, ◌≡◌, ◌≢◌, String, Bool, false, some, List, [], ◌∷◌, ◌&&◌, arith, inl, inr, ◌==◌, Bool-cases,
  ==_self, if◌then◌else◌, get_or, is_id,
}
use seans.Prelude.Int.{ℤ, pos, ◌+ℤ◌, ◌≤ℤ◌, int_laws, min_ℤ, min_ℤ-le}
use seans.Http.{ok}
use seans.Table.{select, find, sum_by, update_where}
use seans.Table.Laws.{find-All}
use seans.Models.{Database, Task, TaskStatus, Worker, is_active}
use seans.Quota.{get_reserved_bytes}
use seans.TaskQueue.{save_task}
use seans.Tasks.Cancel.{IdsUnique, update_absent}
use seans.WorkerApi.{ManifestBody, UploadSlot, total_size, worker_manifest}
use seans.WorkerApi.Manifest.{manifest_row}
use seans.Lifecycle.Soundness.{IsSound}
use seans.Lifecycle.Invariant.{AllSound}

-- What a task adds to the reservations of a user.
abbrev share : ℕ → Task → ℤ
share user_id t = if t.user_id == user_id && is_active t.status then t.reserved_bytes else pos 0

sum_shares :
    (user_id : ℕ) (t : Task) (tasks : List Task)
    → sum_by
        (λ u. u.reserved_bytes)
        (select (λ u. u.user_id == user_id && is_active u.status) (t ∷ tasks))
      ≡ share user_id t
        +ℤ sum_by
            (λ u. u.reserved_bytes)
            (select (λ u. u.user_id == user_id && is_active u.status) tasks)
unfolding select sum_by
sum_shares user_id t tasks = elim (Bool-cases (t.user_id == user_id && is_active t.status)) [
  | inl own ↦ rw own
  | inr other ↦ rw other (omega int_laws)
]

+ℤ_mono : (a b c d : ℤ) → a ≤ℤ b → c ≤ℤ d → a +ℤ c ≤ℤ b +ℤ d
+ℤ_mono a b c d h k = omega int_laws

-- Replacing a task by one with a smaller share lowers the sum.
lowered :
    (p : Task → Bool) (user_id : ℕ) (t m : Task) (tasks : List Task)
    → find p tasks ≡ some t
    → IdsUnique tasks
    → share user_id m ≤ℤ share user_id t
    → sum_by
        (λ u. u.reserved_bytes)
        (select
          (λ u. u.user_id == user_id && is_active u.status)
          (update_where (λ u. u.id == t.id) (λ _. m) tasks))
      ≤ℤ sum_by
          (λ u. u.reserved_bytes)
          (select (λ u. u.user_id == user_id && is_active u.status) tasks)
unfolding find update_where
lowered p user_id t m [] e unique less = absurd (ground arith)
lowered p user_id t m (u ∷ tasks) e (other, unique) less = elim (Bool-cases (p u)) [
  | inl found ↦
      let here : u ≡ t = ground arith in
      let rest = update_absent t.id (λ _. m) tasks (rw (← here) other) in
      rw (rest, here, ==_self t.id, sum_shares user_id m tasks, sum_shares user_id t tasks)
        (+ℤ_mono _ _ _ _ less (omega arith))
  | inr skipped ↦
      let later : find p tasks ≡ some t = ground arith in
      let apart : t.id ≢ u.id = find-All p _ tasks t other later in
      let keep : (u.id == t.id) ≡ false = ground arith in
      rw
        (
          keep,
          sum_shares user_id u tasks,
          sum_shares user_id u (update_where (λ v. v.id == t.id) (λ _. m) tasks),
        )
        (+ℤ_mono (share user_id u) (share user_id u) _ _ (omega arith)
          (lowered p user_id t m tasks later unique less))
]

manifested_share :
    (user_id : ℕ) (t : Task) (total : ℤ)
    → IsSound t
    → share user_id (record t {
      reserved_bytes = min_ℤ t.reserved_bytes total;
      status = TaskStatus.downloading;
    })
      ≤ℤ share user_id t
manifested_share user_id t total sound =
    ground (arith, min_ℤ-le t.reserved_bytes total, sound.finished_released)

-- A manifest that is accepted reserves no more than was reserved before, for any user and whatever
-- sizes it declares. (The tasks are sound, and their ids are unique.)
pub manifest_reserves_no_more :
    (str_uuid : ℕ → String) (presign_put : String → String) (new_id : ℕ → ℕ) (body : ManifestBody)
    (worker : Worker) (db : Database) (slots : ℕ × List UploadSlot) (user_id : ℕ)
    → AllSound db
    → IdsUnique db.tasks
    → (worker_manifest str_uuid presign_put new_id body worker db).0 ≡ ok slots
    → get_reserved_bytes (worker_manifest str_uuid presign_put new_id body worker db).1 user_id
      ≤ℤ get_reserved_bytes db user_id
manifest_reserves_no_more str_uuid presign_put new_id body worker db slots user_id sound unique h =
    let (t, files, e, added, left) =
      manifest_row str_uuid presign_put new_id body worker db slots h in
    let total = total_size (get_or body.files []) in
    let row = find-All _ IsSound db.tasks t sound e in
    rw left (
      unfold save_task get_reserved_bytes in
      lowered (λ u. is_id body.task_id u.id) user_id t _ db.tasks e unique
        (manifested_share user_id t total row))
