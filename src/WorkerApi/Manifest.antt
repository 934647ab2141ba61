-- ===== src/WorkerApi/Manifest.antt =====
-- `worker_manifest`: what a manifest declares, and what it reserves.
use seans.Prelude.{
  ℕ, suc, ◌≡◌, String, Bool, true, none, some, List, [], ◌∷◌, ◌++◌, ◌||◌, arith, inl, inr,
  Option-cases, get_or, ◌==◌, ==_self, is_id, str_eq,
}
use text.Mathlib.TextPositions.{eq_refl}
use seans.Prelude.Int.{min_ℤ}
use seans.Http.{ok, raise, internal_server_error}
use seans.Table.{select, find, exists}
use seans.Table.Laws.{find-update_where, find-test}
use seans.Models.{Database, Task, TaskStatus, TaskFile, Worker}
use seans.TaskQueue.{save_task}
use seans.WorkerApi.Finish.{same_row}
use seans.WorkerApi.{
  FileEntry, ManifestBody, UploadSlot, is_file, new_file, add_files, total_size, upload_slots,
  worker_manifest, get_task,
}

exists-append :
    (p : TaskFile → Bool) (files : List TaskFile) (f : TaskFile)
    → exists p files || p f ≡ true
    → exists p (files ++ f ∷ []) ≡ true
unfolding exists
exists-append p [] f h = ground arith
exists-append p (g ∷ files) f h = ground (arith, exists-append p files f)

same_path : (path : String) → str_eq path path ≡ true
same_path path = eq_refl path

module _ (str_uuid : ℕ → String) (new_id : ℕ → ℕ) (task : Task) where
  -- The loop only adds files.
  add_files-keeps :
      (p : TaskFile → Bool) (i : ℕ) (fs : List FileEntry) (files files' : List TaskFile)
      → add_files str_uuid new_id task i fs files ≡ some files'
      → exists p files ≡ true
      → exists p files' ≡ true
  unfolding add_files
  add_files-keeps p i [] files files' e h = ground arith
  add_files-keeps p i (f ∷ fs) files files' e h =
      let rest = files ++ new_file str_uuid (new_id i) task f ∷ [] in
      ground (
        arith,
        exists-append p files (new_file str_uuid (new_id i) task f),
        add_files-keeps p (suc i) fs rest files',
      )

  -- A loop that ends has added its first file.
  add_files-declares :
      (i : ℕ) (f : FileEntry) (fs : List FileEntry) (files files' : List TaskFile)
      → add_files str_uuid new_id task i (f ∷ fs) files ≡ some files'
      → exists (is_file task.id f.path) files' ≡ true
  unfolding add_files
  add_files-declares i f fs files files' e =
      let file = new_file str_uuid (new_id i) task f in
      ground (
        arith,
        ==_self task.id,
        same_path f.path,
        exists-append (is_file task.id f.path) files file,
        add_files-keeps (is_file task.id f.path) (suc i) fs (files ++ file ∷ []) files',
      )

add_files-taken :
    (str_uuid : ℕ → String) (new_id : ℕ → ℕ) (task : Task) (entries : List FileEntry)
    (f : FileEntry) (fs : List FileEntry) (files : List TaskFile)
    → entries ≡ f ∷ fs
    → exists (is_file task.id f.path) files ≡ true
    → add_files str_uuid new_id task 0 entries files ≡ none
unfolding add_files
add_files-taken str_uuid new_id task entries f fs files e taken = rw (e, taken)

module _ (str_uuid : ℕ → String) (presign_put : String → String) where
  -- What a manifest leaves of its task: the row is found again, and holds the smaller reservation.
  -- The files it declared are in the table. A manifest that raises before the commit changes nothing;
  -- this one passed.
  pub manifest_row :
      (new_id : ℕ → ℕ) (body : ManifestBody) (worker : Worker) (db : Database)
      (slots : ℕ × List UploadSlot)
      → (worker_manifest str_uuid presign_put new_id body worker db).0 ≡ ok slots
      → (t : Task) × (files : List TaskFile) × (find (λ u. is_id body.task_id u.id) db.tasks
          ≡ some t)
        × (add_files str_uuid new_id t 0 (get_or body.files []) db.task_files ≡ some files)
        × ((worker_manifest str_uuid presign_put new_id body worker db).1
            ≡ save_task
                (record t {
                  reserved_bytes = min_ℤ t.reserved_bytes (total_size (get_or body.files []));
                  status = TaskStatus.downloading;
                })
                (record db { task_files = files }))
  unfolding worker_manifest get_task
  manifest_row new_id body worker db slots h =
      elim (Option-cases (find (λ u. is_id body.task_id u.id) db.tasks)) [
        | inl e ↦ absurd (ground arith)
        | inr (t, e) ↦
            elim (Option-cases
              (add_files str_uuid new_id t 0 (get_or body.files []) db.task_files)) [
                | inl f ↦ absurd (ground arith)
                | inr (files, f) ↦
                    elim (Option-cases
                      (upload_slots presign_put (select (λ f. f.task_id == t.id) files))) [
                        | inl g ↦ (let failed = rw (e, f, g) at h in absurd (ground arith))
                        | inr (us, g) ↦ (t, files, e, f, rw (e, f, g))
                      ]
              ]
      ]

  -- A manifest is accepted once: after it, another one of the same task whose first file has the
  -- path of its first file raises, whoever sends it, and changes nothing.
  pub manifest_repeat_refused :
      (new_id new_id' : ℕ → ℕ) (body body' : ManifestBody) (worker worker' : Worker) (db : Database)
      (slots : ℕ × List UploadSlot) (f f' : FileEntry) (fs fs' : List FileEntry)
      → (worker_manifest str_uuid presign_put new_id body worker db).0 ≡ ok slots
      → get_or body.files [] ≡ f ∷ fs
      → get_or body'.files [] ≡ f' ∷ fs'
      → f'.path ≡ f.path
      → body'.task_id ≡ body.task_id
      → let db' = (worker_manifest str_uuid presign_put new_id body worker db).1 in
        worker_manifest str_uuid presign_put new_id' body' worker' db'
        ≡ (raise internal_server_error, db')
  manifest_repeat_refused new_id new_id' body body' worker worker' db slots f f' fs fs' h first
        again path same =
      let (t, files, e, added, left) = manifest_row new_id body worker db slots h in
      let m : Task = record t {
        reserved_bytes = min_ℤ t.reserved_bytes (total_size (get_or body.files []));
        status = TaskStatus.downloading;
      } in
      let declared =
        add_files-declares str_uuid new_id t 0 f fs db.task_files files (rw first at added) in
      let test = find-test (λ u. is_id body.task_id u.id) db.tasks t e in
      let row =
        find-update_where (λ u. is_id body.task_id u.id) (λ u. u.id == t.id) t m db.tasks e test
          (λ u. same_row body.task_id t.id u.id test) in
      let taken =
        add_files-taken str_uuid new_id' m (get_or body'.files []) f' fs' files again
          (rw path declared) in
      rw left (unfold worker_manifest get_task save_task in rw (same, row, taken))
