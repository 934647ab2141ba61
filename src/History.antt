-- ===== src/History.antt =====
-- app/routers/history.py: how far a user has watched a file. Positions in a request are floating point
-- numbers, whose operations are parameters; in the table they count hundredths of a second.
pub mod Listed
use seans.Prelude.{
  ℕ, zero, suc, ◌*◌, ◌/◌, String, Bool, true, false, not, Option, none, some, List, [], ◌∷◌, ◌&&◌,
  map, take, ltb, ◌==◌, if◌then◌else◌,
}
use seans.Prelude.Int.{ℤ, pos, negsuc}
use seans.Http.{Action, internal_server_error, or_raise, raise_if, pure, gets, commit, ◌>>=◌, ◌>>◌}
use seans.Table.{select, find, exists, upsert, order_by, join}
use seans.Models.{Database, User, Task, TaskFile, MediaItem, WatchHistory}

-- What the handler does with floating point numbers: `d > 0`, `p >= d * 0.95`, and the rounding of the
-- column `Numeric(10, 2)`.
pub record Floats : Type 1 where
  pub F : Type 0
  pub is_positive : F → Bool
  pub reaches_end : F → F → Bool
  pub hundredths : F → ℤ

pub record HistoryUpsertRequest (F : Type 0) : Type 0 where
  pub task_file_id : ℕ
  pub position_sec : F
  pub duration_sec : F

module _ (floats : Floats) where
  abbrev pub is_completed : HistoryUpsertRequest floats.F → Bool
  is_completed body =
      if floats.is_positive body.duration_sec
      then floats.reaches_end body.position_sec body.duration_sec
      else false

  -- `.values(…)`
  abbrev pub new_history : ℕ → ℕ → User → HistoryUpsertRequest floats.F → WatchHistory
  new_history id now user body = record {
    id = id;
    user_id = user.id;
    task_file_id = body.task_file_id;
    position_sec = floats.hundredths body.position_sec;
    duration_sec = floats.hundredths body.duration_sec;
    completed = is_completed body;
    updated_at = now;
  }

  -- `set_={…}`
  abbrev pub set_history : ℕ → HistoryUpsertRequest floats.F → WatchHistory → WatchHistory
  set_history now body row = record row {
    position_sec = floats.hundredths body.position_sec;
    duration_sec = floats.hundredths body.duration_sec;
    completed = is_completed body;
    updated_at = now;
  }

-- `index_elements=["user_id", "task_file_id"]`
abbrev pub is_history : ℕ → ℕ → WatchHistory → Bool
is_history user_id task_file_id row = row.user_id == user_id && row.task_file_id == task_file_id

-- A file that is not there violates the foreign key of the row.
unfoldable pub upsert_history :
    (floats : Floats) → ℕ → ℕ → HistoryUpsertRequest floats.F → User → Action Database WatchHistory
upsert_history floats id now body user = do
  there ← gets (λ db. exists (λ f. f.id == body.task_file_id) db.task_files)
  raise_if (not there) internal_server_error
  commit (λ db. record db {
    watch_history =
        upsert (is_history user.id body.task_file_id) (set_history floats now body)
          (new_history floats id now user body) db.watch_history;
  })
  row ← gets (λ db. find (is_history user.id body.task_file_id) db.watch_history)
  or_raise row internal_server_error

-- A row of the query: `WatchHistory`, `TaskFile`, `Task` and `MediaItem`.
abbrev pub HistoryRow : Type 0
HistoryRow = ((WatchHistory × TaskFile) × Task) × MediaItem

-- The `SELECT` with its three joins.
abbrev pub history_rows : Database → List HistoryRow
history_rows db =
    join (λ r media. media.id == r.1.media_item_id)
      (join (λ r task. task.id == r.1.task_id)
        (join (λ history file. file.id == history.task_file_id) db.watch_history db.task_files)
        db.tasks)
      db.media_items

-- `.where(WatchHistory.user_id == user.id, WatchHistory.completed == False)`
abbrev pub is_unfinished : ℕ → HistoryRow → Bool
is_unfinished user_id r = r.0.0.0.user_id == user_id && not r.0.0.0.completed

-- `WatchHistory.updated_at.desc()`
abbrev pub newer_history : HistoryRow → HistoryRow → Bool
newer_history r s = ltb s.0.0.0.updated_at r.0.0.0.updated_at

-- `-n`
abbrev pub minus : ℕ → ℤ
minus zero = pos 0
minus (suc n) = negsuc n

-- `int(position / duration * 100) if duration > 0 else 0`: `int` drops the fraction.
unfoldable pub progress_pct : ℤ → ℤ → ℤ
progress_pct (pos position) (pos (suc d)) = pos (position * 100 / suc d)
progress_pct (negsuc p) (pos (suc d)) = minus (suc p * 100 / suc d)
progress_pct position (pos zero) = pos 0
progress_pct position (negsuc d) = pos 0

pub record HistoryItem : Type 0 where
  pub history : WatchHistory
  pub media_id : ℕ
  pub media_title : String
  pub media_poster_url : Option String
  pub file_id : ℕ
  pub file_path : String
  pub progress_pct : ℤ

unfoldable pub history_item : HistoryRow → HistoryItem
unfolding progress_pct
history_item (((history, tf), task), media) = record {
  history = history;
  media_id = media.id;
  media_title = media.title;
  media_poster_url = media.poster_url;
  file_id = tf.id;
  file_path = tf.path;
  progress_pct = progress_pct history.position_sec history.duration_sec;
}

-- FastAPI lets `limit` through from 1 to 200.
unfoldable pub get_history : ℕ → User → Database → List HistoryItem
unfolding history_item
get_history limit user db =
    map history_item
      (take limit (order_by newer_history (select (is_unfinished user.id) (history_rows db))))
