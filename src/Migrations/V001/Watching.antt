-- ===== src/Migrations/V001/Watching.antt =====
-- alembic/versions/001_initial_schema.py: the tables watch_history, rooms and room_members.
use seans.Prelude.{true, false, none, some, [], ◌∷◌}
use seans.Schema.{TableDef, column, not_null, with_default, referring, key}
use seans.Schema.ColumnType.{uuid, string, numeric, boolean, date_time}
use seans.Schema.KeyKind.{primary_key, unique}

abbrev pub watch_history : TableDef
watch_history = record {
  name = "watch_history";
  columns =
      not_null (with_default "gen_random_uuid()" (column "id" uuid))
      ∷ not_null (referring "users" true (column "user_id" uuid))
      ∷ not_null (referring "task_files" true (column "task_file_id" uuid))
      ∷ not_null (with_default "0" (column "position_sec" (numeric 10 2)))
      ∷ not_null (with_default "0" (column "duration_sec" (numeric 10 2)))
      ∷ not_null (with_default "false" (column "completed" boolean))
      ∷ not_null (with_default "now()" (column "updated_at" date_time))
      ∷ [];
  keys =
      key primary_key none ("id" ∷ [])
      ∷ key unique (some "uq_watch_history_user_file") ("user_id" ∷ "task_file_id" ∷ [])
      ∷ [];
}

abbrev pub rooms : TableDef
rooms = record {
  name = "rooms";
  columns =
      not_null (with_default "gen_random_uuid()" (column "id" uuid))
      ∷ not_null (column "code" (string 8))
      ∷ not_null (referring "users" false (column "host_user_id" uuid))
      ∷ not_null (referring "task_files" false (column "task_file_id" uuid))
      ∷ not_null (with_default "0" (column "current_position" (numeric 10 2)))
      ∷ not_null (with_default "false" (column "is_playing" boolean))
      ∷ not_null (with_default "now()" (column "created_at" date_time))
      ∷ column "closed_at" date_time
      ∷ [];
  keys = key primary_key none ("id" ∷ []) ∷ key unique none ("code" ∷ []) ∷ [];
}

abbrev pub room_members : TableDef
room_members = record {
  name = "room_members";
  columns =
      referring "rooms" true (column "room_id" uuid)
      ∷ referring "users" true (column "user_id" uuid)
      ∷ not_null (with_default "now()" (column "joined_at" date_time))
      ∷ [];
  keys = key primary_key none ("room_id" ∷ "user_id" ∷ []) ∷ [];
}
