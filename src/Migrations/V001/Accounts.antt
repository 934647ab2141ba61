-- ===== src/Migrations/V001/Accounts.antt =====
-- alembic/versions/001_initial_schema.py: the tables users and workers.
use seans.Prelude.{none, [], ◌∷◌}
use seans.Schema.{TableDef, column, not_null, with_default, key}
use seans.Schema.ColumnType.{uuid, citext, text, big_integer, date_time}
use seans.Schema.KeyKind.{primary_key, unique}

abbrev pub users : TableDef
users = record {
  name = "users";
  columns =
      not_null (with_default "gen_random_uuid()" (column "id" uuid))
      ∷ not_null (column "email" citext)
      ∷ not_null (column "password_hash" text)
      ∷ not_null (column "display_name" text)
      ∷ not_null (with_default "10737418240" (column "quota_bytes" big_integer))
      ∷ not_null (with_default "now()" (column "created_at" date_time))
      ∷ [];
  keys = key primary_key none ("id" ∷ []) ∷ key unique none ("email" ∷ []) ∷ [];
}

abbrev pub workers : TableDef
workers = record {
  name = "workers";
  columns =
      not_null (column "id" uuid)
      ∷ not_null (column "name" text)
      ∷ not_null (column "token_hash" text)
      ∷ column "last_seen_at" date_time
      ∷ not_null (with_default "now()" (column "registered_at" date_time))
      ∷ [];
  keys = key primary_key none ("id" ∷ []) ∷ [];
}
