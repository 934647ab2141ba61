-- ===== src/History/Listed.antt =====
-- Which files the list leaves out.
use seans.Prelude.{
  ℕ, ◌≡◌, ◌≢◌, true, List, [], ◌∷◌, Option-cases, arith, inl, inr, ◌==◌, ==_iff, Bool-cases, All,
  All-map_to, take-All,
}
use seans.Http.{ok}
use seans.Table.{select, find, exists, upsert}
use seans.Table.Laws.{upsert-sets, join-All}
use seans.Table.Order.{order_by-All}
use seans.Models.{Database, User, WatchHistory}
use seans.History.{
  Floats, HistoryUpsertRequest, is_completed, new_history, set_history, is_history, upsert_history,
  HistoryRow, history_rows, is_unfinished, newer_history, history_item, get_history,
}

-- The user has finished the file, as far as a row says.
abbrev IsFinished : ℕ → ℕ → WatchHistory → Type 0
IsFinished user_id task_file_id row =
    is_history user_id task_file_id row ≡ true → row.completed ≡ true

-- A row of the query for another file.
abbrev IsOther : ℕ → WatchHistory → Type 0
IsOther task_file_id row = row.task_file_id ≢ task_file_id

unfinished_rows :
    (user_id task_file_id : ℕ) (rows : List HistoryRow)
    → All (λ r. IsFinished user_id task_file_id r.0.0.0) rows
    → All (λ r. IsOther task_file_id r.0.0.0) (select (is_unfinished user_id) rows)
unfolding select
unfinished_rows user_id task_file_id [] finished = tt
unfinished_rows user_id task_file_id (r ∷ rows) finished =
    let rest = unfinished_rows user_id task_file_id rows finished.1 in
    elim (Bool-cases (is_unfinished user_id r)) [
      | inl on ↦ rw on (
        λ same.
            let done = finished.0 (ground (arith, ==_iff r.0.0.0.task_file_id task_file_id)) in
            ground arith,
        rest,
      )
      | inr off ↦ rw off rest
    ]

-- All rows of the file and the user are finished, so the list has none.
finished_not_listed :
    (limit : ℕ) (user : User) (task_file_id : ℕ) (db : Database)
    → All (IsFinished user.id task_file_id) db.watch_history
    → All (λ i. IsOther task_file_id i.history) (get_history limit user db)
unfolding get_history history_item
finished_not_listed limit user task_file_id db finished =
    let joined = join-All _ _ _ db.media_items (
      join-All _ _ _ db.tasks
        (join-All (IsFinished user.id task_file_id) _ db.watch_history db.task_files finished)) in
    let chosen = unfinished_rows user.id task_file_id (history_rows db) joined in
    let other : HistoryRow → Type 0 = λ r. IsOther task_file_id r.0.0.0 in
    All-map_to other _ history_item _ (λ r h. h)
      (take-All other limit _ (order_by-All newer_history other _ chosen))

-- After an accepted position that counts as completed, the user's history lists no entry for that
-- file, for whatever limit.
pub completed_not_listed :
    (floats : Floats) (id now limit : ℕ) (body : HistoryUpsertRequest floats.F) (user : User)
    (db : Database) (row : WatchHistory)
    → (upsert_history floats id now body user db).0 ≡ ok row
    → is_completed floats body ≡ true
    → let db' = (upsert_history floats id now body user db).1 in
      All (λ i. i.history.task_file_id ≢ body.task_file_id) (get_history limit user db')
unfolding upsert_history
completed_not_listed floats id now limit body user db row accepted done =
    elim (Bool-cases (exists (λ f. f.id == body.task_file_id) db.task_files)) [
      | inr missing ↦ let e = rw missing at accepted in absurd (ground arith)
      | inl there ↦
          let key = is_history user.id body.task_file_id in
          let rows =
            upsert key (set_history floats now body) (new_history floats id now user body)
              db.watch_history in
          let finished =
            upsert-sets key (IsFinished user.id body.task_file_id) (set_history floats now body)
              (new_history floats id now user body) db.watch_history (λ _. done) (λ y _ _. done)
              (λ y other own. absurd (ground arith)) in
          let listed =
            finished_not_listed limit user body.task_file_id (record db { watch_history = rows })
              finished in
          elim (Option-cases (find key rows)) [
            | inl none_left ↦ rw (there, none_left) listed
            | inr (saved, e) ↦ rw (there, e) listed
          ]
    ]
