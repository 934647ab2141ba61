-- ===== src/Migrations/V001/Downloads.antt =====
-- alembic/versions/001_initial_schema.py: the tables tasks, task_files and library_items.
use seans.Prelude.{true, false, none, some, [], ◌∷◌}
use seans.Schema.{TableDef, column, not_null, with_default, referring, key}
use seans.Schema.ColumnType.{uuid, text, small_integer, integer, big_integer, date_time}
use seans.Schema.KeyKind.{primary_key, unique, check}

abbrev pub tasks : TableDef
tasks = record {
  name = "tasks";
  columns =
      not_null (with_default "gen_random_uuid()" (column "id" uuid))
      ∷ not_null (referring "users" false (column "user_id" uuid))
      ∷ not_null (referring "media_items" false (column "media_item_id" uuid))
      ∷ not_null (referring "torrent_releases" false (column "torrent_release_id" uuid))
      ∷ referring "workers" false (column "worker_id" uuid)
      ∷ not_null (with_default "'queued'" (column "status" text))
      ∷ not_null (with_default "0" (column "priority" integer))
      ∷ not_null (with_default "0" (column "attempts" integer))
      ∷ not_null (with_default "3" (column "max_attempts" integer))
      ∷ not_null (with_default "0" (column "reserved_bytes" big_integer))
      ∷ not_null (with_default "0" (column "progress_pct" small_integer))
      ∷ not_null (with_default "0" (column "speed_bps" big_integer))
      ∷ column "stage" text
      ∷ column "error" text
      ∷ column "lease_expires_at" date_time
      ∷ not_null (with_default "now()" (column "created_at" date_time))
      ∷ not_null (with_default "now()" (column "updated_at" date_time))
      ∷ [];
  keys =
      key primary_key none ("id" ∷ [])
      ∷ key
          (check
            "status IN ('queued','assigned','downloading','uploading','completed','failed','canceled')")
          (some "ck_tasks_status") ("status" ∷ [])
      ∷ [];
}

abbrev pub task_files : TableDef
task_files = record {
  name = "task_files";
  columns =
      not_null (with_default "gen_random_uuid()" (column "id" uuid))
      ∷ not_null (referring "tasks" true (column "task_id" uuid))
      ∷ not_null (column "path" text)
      ∷ not_null (with_default "0" (column "size_bytes" big_integer))
      ∷ column "s3_key" text
      ∷ not_null (with_default "'pending'" (column "status" text))
      ∷ column "season" integer
      ∷ column "episode" integer
      ∷ column "uploaded_at" date_time
      ∷ [];
  keys =
      key primary_key none ("id" ∷ [])
      ∷ key (check "status IN ('pending','uploaded')") (some "ck_task_files_status") ("status" ∷ [])
      ∷ key unique (some "uq_task_files_task_path") ("task_id" ∷ "path" ∷ [])
      ∷ [];
}

abbrev pub library_items : TableDef
library_items = record {
  name = "library_items";
  columns =
      not_null (with_default "gen_random_uuid()" (column "id" uuid))
      ∷ not_null (referring "users" true (column "user_id" uuid))
      ∷ not_null (referring "media_items" false (column "media_item_id" uuid))
      ∷ referring "tasks" false (column "source_task_id" uuid)
      ∷ not_null (with_default "'in_progress'" (column "status" text))
      ∷ not_null (with_default "now()" (column "created_at" date_time))
      ∷ [];
  keys =
      key primary_key none ("id" ∷ [])
      ∷ key (check "status IN ('in_progress','ready')") (some "ck_library_items_status")
          ("status" ∷ [])
      ∷ key unique (some "uq_library_items_user_media") ("user_id" ∷ "media_item_id" ∷ [])
      ∷ [];
}
