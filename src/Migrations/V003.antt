-- ===== src/Migrations/V003.antt =====
-- alembic/versions/003_add_tmdb_id.py: the id that TMDB gives a medium.
use seans.Prelude.{none, some, List, [], ◌∷◌}
use seans.Schema.{Column, Key, Operation, column, key}
use seans.Schema.ColumnType.{integer}
use seans.Schema.KeyKind.{index}
use seans.Schema.Operation.{create_index, drop_index, add_column, drop_column}

abbrev pub tmdb_id : Column
tmdb_id = column "tmdb_id" integer

abbrev pub ix_media_items_tmdb_id : Key
ix_media_items_tmdb_id = key (index none) (some "ix_media_items_tmdb_id") ("tmdb_id" ∷ [])

abbrev pub upgrade : List Operation
upgrade = add_column "media_items" tmdb_id ∷ create_index "media_items" ix_media_items_tmdb_id ∷ []

abbrev pub downgrade : List Operation
downgrade =
    drop_index "ix_media_items_tmdb_id" "media_items" ∷ drop_column "media_items" "tmdb_id" ∷ []
