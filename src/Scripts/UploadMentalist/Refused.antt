-- ===== src/Scripts/UploadMentalist/Refused.antt =====
-- What the printed statements leave.
use seans.Prelude.{
  ℕ, suc, false, List, [], ◌∷◌, ◌≡◌, refl, sym, ap, ◌∙◌, ◌⊎◌, arith, ◌==◌, Bool-cases, inl, inr,
  none, some, Option,
}
use seans.Table.{exists}
use seans.Models.{Database}
use seans.Tasks.{is_library_item}
use seans.Scripts.UploadMentalist.{
  Ids, Entry, insert_media, insert_library_item, insert_task, insert_file, file_statements,
  statements, run_in_order,
}

-- A statement that is refused, or has nothing to do.
abbrev pub ChangesNothing : (Database → Option Database) → Database → Type 0
ChangesNothing statement db = (statement db ≡ none) ⊎ (statement db ≡ some db)

run_past :
    (statement : Database → Option Database) (rest : List (Database → Option Database))
    (db : Database)
    → ChangesNothing statement db
    → run_in_order (statement ∷ rest) db ≡ run_in_order rest db
unfolding run_in_order
run_past statement rest db (inl refused) = rw refused refl
run_past statement rest db (inr kept) = rw kept refl

module _ (ids : Ids) (now : ℕ) (db : Database)
    (new : exists (λ t. t.id == ids.task_id) db.tasks ≡ false) where
  file_refused : (id : ℕ) (tf : Entry) → insert_file ids now id tf db ≡ none
  unfolding insert_file
  file_refused id tf = rw new refl

  files_refused :
      (n : ℕ) (entries : List Entry) → run_in_order (file_statements ids now n entries) db ≡ db
  unfolding file_statements
  files_refused n [] = unfold run_in_order in refl
  files_refused n (tf ∷ entries) =
      run_past (insert_file ids now (ids.file_ids n) tf) _ db
        (inl (file_refused (ids.file_ids n) tf))
      ∙ files_refused (suc n) entries

  item_refused : ChangesNothing (insert_library_item ids now) db
  unfolding insert_library_item
  item_refused =
      elim (Bool-cases (exists (is_library_item ids.user_id ids.media_item_id) db.library_items)) [
        | inl there ↦ inr (rw there refl)
        | inr free ↦ inl (ground arith)
      ]

  task_refused :
      exists (λ r. r.id == ids.torrent_release_id) db.torrent_releases ≡ false
      → insert_task ids now db ≡ none
  unfolding insert_task
  task_refused stub = ground arith

  rest_refused :
      (entries : List Entry)
      → exists (λ r. r.id == ids.torrent_release_id) db.torrent_releases ≡ false
      → run_in_order
          (insert_library_item ids now ∷ insert_task ids now ∷ file_statements ids now 0 entries)
          db
        ≡ db
  rest_refused entries stub =
      run_past (insert_library_item ids now) _ db item_refused
      ∙ (run_past (insert_task ids now) _ db (inl (task_refused stub)) ∙ files_refused 0 entries)

-- The SQL of the script, run in order, saves the medium and nothing else: no library item, no task
-- and no file. (The task's id is new, and the id that stands for its release is no release's.)
pub only_media_saved :
    (ids : Ids) (now : ℕ) (entries : List Entry) (db : Database)
    → exists (λ t. t.id == ids.task_id) db.tasks ≡ false
    → exists (λ r. r.id == ids.torrent_release_id) db.torrent_releases ≡ false
    → insert_media ids now db ≡ some (run_in_order (statements ids now entries) db)
unfolding run_in_order statements insert_media
only_media_saved ids now entries db new stub =
    ap some (sym (rest_refused ids now _ new entries stub))
