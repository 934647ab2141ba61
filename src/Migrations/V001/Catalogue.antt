-- ===== src/Migrations/V001/Catalogue.antt =====
-- alembic/versions/001_initial_schema.py: the tables media_items, torrent_releases and reviews.
use seans.Prelude.{true, none, some, [], ◌∷◌}
use seans.Schema.{TableDef, column, not_null, with_default, referring, is_unique_column, key}
use seans.Schema.ColumnType.{
  uuid, text, varchar, small_integer, integer, big_integer, numeric, date_time, jsonb, array,
}
use seans.Schema.KeyKind.{primary_key, unique, check}

abbrev pub media_items : TableDef
media_items = record {
  name = "media_items";
  columns =
      not_null (with_default "gen_random_uuid()" (column "id" uuid))
      ∷ is_unique_column (column "kp_id" big_integer)
      ∷ not_null (column "kp_type" text)
      ∷ not_null (column "title" text)
      ∷ column "original_title" text
      ∷ column "year" integer
      ∷ column "poster_url" text
      ∷ column "overview" text
      ∷ column "rating_kp" (numeric 3 1)
      ∷ with_default "'{}'" (column "genres" (array varchar))
      ∷ not_null (with_default "'{}'::jsonb" (column "raw" jsonb))
      ∷ not_null (with_default "now()" (column "updated_at" date_time))
      ∷ [];
  keys =
      key primary_key none ("id" ∷ [])
      ∷ key (check "kp_type IN ('movie','tv')") (some "ck_media_items_kp_type") ("kp_type" ∷ [])
      ∷ [];
}

abbrev pub torrent_releases : TableDef
torrent_releases = record {
  name = "torrent_releases";
  columns =
      not_null (with_default "gen_random_uuid()" (column "id" uuid))
      ∷ not_null (referring "media_items" true (column "media_item_id" uuid))
      ∷ not_null (column "source" text)
      ∷ not_null (column "tracker" text)
      ∷ not_null (column "title" text)
      ∷ not_null (column "info_hash" text)
      ∷ not_null (column "size_bytes" big_integer)
      ∷ not_null (with_default "0" (column "seeders" integer))
      ∷ not_null (with_default "0" (column "leechers" integer))
      ∷ column "quality" text
      ∷ column "voiceover" text
      ∷ column "magnet" text
      ∷ not_null (with_default "now()" (column "fetched_at" date_time))
      ∷ [];
  keys =
      key primary_key none ("id" ∷ [])
      ∷ key unique (some "uq_torrent_releases_media_hash") ("media_item_id" ∷ "info_hash" ∷ [])
      ∷ [];
}

abbrev pub reviews : TableDef
reviews = record {
  name = "reviews";
  columns =
      not_null (with_default "gen_random_uuid()" (column "id" uuid))
      ∷ not_null (referring "users" true (column "user_id" uuid))
      ∷ not_null (referring "media_items" true (column "media_item_id" uuid))
      ∷ not_null (column "score" small_integer)
      ∷ column "review" text
      ∷ not_null (with_default "now()" (column "created_at" date_time))
      ∷ not_null (with_default "now()" (column "updated_at" date_time))
      ∷ [];
  keys =
      key primary_key none ("id" ∷ [])
      ∷ key (check "score BETWEEN 1 AND 10") (some "ck_reviews_score") ("score" ∷ [])
      ∷ key unique (some "uq_reviews_user_media") ("user_id" ∷ "media_item_id" ∷ [])
      ∷ [];
}
