-- ===== src/Models/Watching.antt =====
-- The rows of app/models/review.py, watch_history.py, room.py and room_member.py. The columns of
-- type `Numeric(10, 2)` count hundredths.
use seans.Prelude.{ℕ, String, Bool, Option}
use seans.Prelude.Int.{ℤ}

pub record Review : Type 0 where
  pub id : ℕ
  pub user_id : ℕ
  pub media_item_id : ℕ
  pub score : ℤ
  pub review : Option String
  pub created_at : ℕ
  pub updated_at : ℕ

pub record WatchHistory : Type 0 where
  pub id : ℕ
  pub user_id : ℕ
  pub task_file_id : ℕ
  pub position_sec : ℤ
  pub duration_sec : ℤ
  pub completed : Bool
  pub updated_at : ℕ

pub record Room : Type 0 where
  pub id : ℕ
  pub code : String
  pub host_user_id : ℕ
  pub task_file_id : ℕ
  pub current_position : ℤ
  pub is_playing : Bool
  pub created_at : ℕ
  pub closed_at : Option ℕ

pub record RoomMember : Type 0 where
  pub room_id : ℕ
  pub user_id : ℕ
  pub joined_at : ℕ
