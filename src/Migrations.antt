-- ===== src/Migrations.antt =====
-- alembic/versions: the scripts that take the schema of the database from one revision to the next
-- and back, as lists of operations of `Schema`, and as changes of rows where they change rows. A
-- refused operation rolls the whole script back.
pub mod V001
pub mod V002
pub mod V003
pub mod V004
pub mod V005
pub mod V006
pub mod Reverted
use seans.Prelude.{Bool, true, not, List, ◌&&◌}
use seans.Table.{exists}
use seans.Schema.{Operation, Schema, every, is_citext}
use seans.Schema.Undo.{differs}
use seans.Prelude.{str_eq}

-- The revisions that change the schema.
pub data Revision : Type 0 where
  initial_schema : Revision
  invite_system : Revision
  add_tmdb_id : Revision
  seed_invite_key : Revision
  admin_plans : Revision

abbrev pub upgrade : Revision → List Operation
upgrade initial_schema = V001.upgrade
upgrade invite_system = V002.upgrade
upgrade add_tmdb_id = V003.upgrade
upgrade seed_invite_key = V004.upgrade
upgrade admin_plans = V005.upgrade

abbrev pub downgrade : Revision → List Operation
downgrade initial_schema = V001.downgrade
downgrade invite_system = V002.downgrade
downgrade add_tmdb_id = V003.downgrade
downgrade seed_invite_key = V004.downgrade
downgrade admin_plans = V005.downgrade

-- The schemas that the way up does not treat like others: the first script leaves extensions that
-- are there, and the fourth a column that takes nulls.
unfoldable pub is_undone : Revision → Schema → Bool
unfolding exists every differs
is_undone initial_schema s =
    not (exists (str_eq "citext") s.extensions)
    && not (exists (str_eq "pgcrypto") s.extensions)
    && not (exists (λ t. exists is_citext t.columns) s.tables)
is_undone seed_invite_key s = every (differs "created_by" true) s.tables
is_undone _ s = true
