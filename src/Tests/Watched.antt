-- ===== src/Tests/Watched.antt =====
-- The history of a user.
use seans.Prelude.{ℕ, ◌*◌, ◌≡◌, ◌≢◌, refl, [], ◌∷◌, All, ltb, leb, map}
use seans.Prelude.Int.{pos}
use seans.Table.{select, find, exists, upsert, order_by, join}
use seans.Models.{Database}
use seans.History.{
  Floats, HistoryUpsertRequest, new_history, upsert_history, get_history, history_item,
  progress_pct,
}
use seans.History.Listed.{completed_not_listed}
use seans.Tests.Sample.{alice, with_tasks, queued_task, pending_file}

-- Whole seconds in place of floating point numbers.
abbrev whole : Floats
whole = record {
  F = ℕ;
  is_positive = λ d. ltb 0 d;
  reaches_end = λ p d. leb (d * 95) (p * 100);
  hundredths = λ n. pos (n * 100);
}

abbrev filed : Database
filed = record (with_tasks (queued_task 10 1 ∷ [])) { task_files = pending_file 4 10 ∷ [] }

abbrev watched : ℕ → HistoryUpsertRequest ℕ
watched seconds = record { task_file_id = 4; position_sec = seconds; duration_sec = 300 }

completed_not_listed_example :
    All
      (λ i. i.history.task_file_id ≢ 4)
      (get_history 50 alice (upsert_history whole 20 1000 (watched 285) alice filed).1)
unfolding upsert_history exists find upsert
completed_not_listed_example =
    completed_not_listed whole 20 1000 50 (watched 285) alice filed
      (new_history whole 20 1000 alice (watched 285)) refl refl

-- A file that is not finished is listed, at a third of its length.
unfinished_listed :
    map
      (λ i. i.progress_pct)
      (get_history 50 alice (upsert_history whole 20 1000 (watched 100) alice filed).1)
    ≡ pos 33 ∷ []
unfolding upsert_history exists find upsert get_history history_item progress_pct select order_by
    join
unfinished_listed = refl
