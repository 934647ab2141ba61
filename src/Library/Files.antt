-- ===== src/Library/Files.antt =====
-- Whose files a user gets.
use seans.Prelude.{
  ℕ, ◌≡◌, String, Bool, true, some, List, [], ◌∷◌, ◌&&◌, map, All, All-append, All-weaken, arith,
  inl, inr, ◌==◌, Option-cases,
}
use seans.Http.{raise, http}
use seans.Table.{find, exists, join}
use seans.Table.Laws.{find-test, find-All, select-All, select-tests}
use seans.Models.{Database, User, Task, TaskFile, FileStatus}
use seans.Library.{files_with_tasks, download_key, get_file_url}

members :
    (tasks : List Task) → All (λ t. (q : Task → Bool) → q t ≡ true → exists q tasks ≡ true) tasks
unfolding exists
members [] = tt
members (t ∷ tasks) = (
  λ q h. ground arith,
  All-weaken _ _ tasks (λ u inside q h. let later = inside q h in ground arith) (members tasks),
)

-- What holds of the files and the tasks holds of the rows that join them, beside the condition.
pairs-All {κ μ} :
    (P : TaskFile → Type κ) (Q : Task → Type μ) (f : TaskFile) (tasks : List Task)
    → P f
    → All Q tasks
    → All (λ t. t.id == f.task_id ≡ true) tasks
    → All
        (λ (r : TaskFile × Task). P r.0 × Q r.1 × (r.1.id == r.0.task_id ≡ true))
        (map (λ t. (f, t)) tasks)
pairs-All P Q f [] h qs on = tt
pairs-All P Q f (t ∷ tasks) h (q, qs) (o, on) = ((h, q, o), pairs-All P Q f tasks h qs on)

join-All {κ μ} :
    (P : TaskFile → Type κ) (Q : Task → Type μ) (files : List TaskFile) (tasks : List Task)
    → All P files
    → All Q tasks
    → All
        (λ (r : TaskFile × Task). P r.0 × Q r.1 × (r.1.id == r.0.task_id ≡ true))
        (join (λ file task. task.id == file.task_id) files tasks)
unfolding join
join-All P Q [] tasks ps qs = tt
join-All P Q (f ∷ files) tasks (p, ps) qs =
    All-append _ _ _
      (pairs-All P Q f _ p (select-All _ Q tasks qs) (select-tests (λ t. t.id == f.task_id) tasks))
      (join-All P Q files tasks ps qs)

uploaded_if :
    (f : TaskFile) (key : String) → download_key f ≡ some key → f.status ≡ FileStatus.uploaded
unfolding download_key
uploaded_if f key e = ground arith

-- A task of the user holds the file, and the file is uploaded.
abbrev pub IsDownloadable : Database → User → TaskFile → Type 0
IsDownloadable db user f =
    (exists (λ t. t.id == f.task_id && t.user_id == user.id) db.tasks ≡ true)
    × (f.status ≡ FileStatus.uploaded)

-- Nobody gets a link to a file that is not theirs, or not uploaded: if no file with the id is one of
-- the user's uploaded files, the request is answered with 404, and nothing changes.
pub get_file_url_private :
    (presign_get : String → String) (task_file_id : ℕ) (user : User) (db : Database)
    → All (λ f. f.id ≡ task_file_id → ¬ IsDownloadable db user f) db.task_files
    → (detail : String) × (get_file_url presign_get task_file_id user db
        ≡ (raise (http 404 detail), db))
unfolding get_file_url
get_file_url_private presign_get task_file_id user db h =
    elim (Option-cases
      (find (λ r. r.0.id == task_file_id && r.1.user_id == user.id) (files_with_tasks db))) [
        | inl e ↦ ("File not found", rw e)
        | inr ((f, t), e) ↦
            let test = find-test _ (files_with_tasks db) (f, t) e in
            let (private, inside, on) =
              find-All _ _ (files_with_tasks db) (f, t)
                (join-All _ _ db.task_files db.tasks h (members db.tasks)) e in
            let owned = inside (λ u. u.id == f.task_id && u.user_id == user.id) (ground arith) in
            elim (Option-cases (download_key f)) [
              | inl refused ↦ ("File not yet uploaded", rw (e, refused))
              | inr (key, given) ↦ absurd (private (ground arith) (owned, uploaded_if f key given))
            ]
      ]
