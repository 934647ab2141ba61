-- ===== src/Migrations/V001.antt =====
-- alembic/versions/001_initial_schema.py: the first schema.
mod Accounts
mod Catalogue
mod Downloads
mod Watching
use seans.Prelude.{some, List, [], ◌∷◌}
use seans.Schema.{
  TableDef, Column, ColumnType, Key, KeyKind, Operation, column, not_null, with_default, referring,
  is_unique_column, key,
}
use seans.Schema.ColumnType.{
  uuid, citext, text, string, varchar, small_integer, integer, big_integer, numeric, boolean,
  date_time, jsonb, array,
}
use seans.Schema.KeyKind.{primary_key, unique, check, index}
use seans.Schema.Operation.{
  create_extension, drop_extension, create_table, drop_table, create_index, drop_index, add_column,
  drop_column, alter_nullable,
}
use Accounts.{users, workers}
use Catalogue.{media_items, torrent_releases, reviews}
use Downloads.{tasks, task_files, library_items}
use Watching.{watch_history, rooms, room_members}

abbrev pub idx_tasks_claim : Key
idx_tasks_claim =
    key (index (some "status = 'queued'")) (some "idx_tasks_claim")
      ("status" ∷ "priority" ∷ "created_at" ∷ [])

abbrev pub idx_tasks_lease : Key
idx_tasks_lease =
    key (index (some "status IN ('assigned','downloading','uploading')")) (some "idx_tasks_lease")
      ("lease_expires_at" ∷ [])

abbrev pub upgrade : List Operation
upgrade =
    create_extension "citext"
    ∷ create_extension "pgcrypto"
    ∷ create_table users
    ∷ create_table workers
    ∷ create_table media_items
    ∷ create_table torrent_releases
    ∷ create_table tasks
    ∷ create_index "tasks" idx_tasks_claim
    ∷ create_index "tasks" idx_tasks_lease
    ∷ create_table task_files
    ∷ create_table library_items
    ∷ create_table watch_history
    ∷ create_table reviews
    ∷ create_table rooms
    ∷ create_table room_members
    ∷ []

abbrev pub downgrade : List Operation
downgrade =
    drop_table "room_members"
    ∷ drop_table "rooms"
    ∷ drop_table "reviews"
    ∷ drop_table "watch_history"
    ∷ drop_table "library_items"
    ∷ drop_table "task_files"
    ∷ drop_index "idx_tasks_lease" "tasks"
    ∷ drop_index "idx_tasks_claim" "tasks"
    ∷ drop_table "tasks"
    ∷ drop_table "torrent_releases"
    ∷ drop_table "media_items"
    ∷ drop_table "workers"
    ∷ drop_table "users"
    ∷ drop_extension "pgcrypto"
    ∷ drop_extension "citext"
    ∷ []
