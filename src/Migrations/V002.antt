-- ===== src/Migrations/V002.antt =====
-- alembic/versions/002_invite_system.py: who may invite, and the invite keys.
use seans.Prelude.{false, none, List, [], ◌∷◌}
use seans.Schema.{TableDef, Column, Operation, column, not_null, with_default, referring, key}
use seans.Schema.ColumnType.{uuid, text, boolean, date_time}
use seans.Schema.KeyKind.{primary_key, unique}
use seans.Schema.Operation.{create_table, drop_table, add_column, drop_column}

abbrev pub can_invite : Column
can_invite = not_null (with_default "'false'" (column "can_invite" boolean))

abbrev pub invite_keys : TableDef
invite_keys = record {
  name = "invite_keys";
  columns =
      not_null (with_default "gen_random_uuid()" (column "id" uuid))
      ∷ not_null (column "key" text)
      ∷ not_null (referring "users" false (column "created_by" uuid))
      ∷ referring "users" false (column "used_by" uuid)
      ∷ not_null (with_default "now()" (column "created_at" date_time))
      ∷ column "used_at" date_time
      ∷ [];
  keys = key primary_key none ("id" ∷ []) ∷ key unique none ("key" ∷ []) ∷ [];
}

abbrev pub upgrade : List Operation
upgrade = add_column "users" can_invite ∷ create_table invite_keys ∷ []

abbrev pub downgrade : List Operation
downgrade = drop_table "invite_keys" ∷ drop_column "users" "can_invite" ∷ []
