-- ===== src/Migrations/V005.antt =====
-- alembic/versions/005_admin_plans.py: administrators and plans.
use seans.Prelude.{List, [], ◌∷◌}
use seans.Schema.{Column, Operation, column, not_null, with_default}
use seans.Schema.ColumnType.{text, boolean, date_time}
use seans.Schema.Operation.{add_column, drop_column}

abbrev pub is_admin : Column
is_admin = not_null (with_default "'false'" (column "is_admin" boolean))

abbrev pub plan : Column
plan = not_null (with_default "'free'" (column "plan" text))

abbrev pub plan_expires_at : Column
plan_expires_at = column "plan_expires_at" date_time

abbrev pub upgrade : List Operation
upgrade =
    add_column "users" is_admin ∷ add_column "users" plan ∷ add_column "users" plan_expires_at ∷ []

abbrev pub downgrade : List Operation
downgrade =
    drop_column "users" "plan_expires_at"
    ∷ drop_column "users" "plan"
    ∷ drop_column "users" "is_admin"
    ∷ []
