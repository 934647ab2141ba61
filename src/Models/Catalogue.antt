-- ===== src/Models/Catalogue.antt =====
-- The rows of app/models/media_item.py and torrent_release.py. `rating_kp` counts tenths, as its
-- column `Numeric(3, 1)` does, and `raw` is the text of a JSON value.
use seans.Prelude.{ℕ, String, Option, List}
use seans.Prelude.Int.{ℤ}

-- `CheckConstraint("kp_type IN ('movie','tv')")`
pub data KpType : Type 0 where
  movie tv : KpType

pub record MediaItem : Type 0 where
  pub id : ℕ
  pub kp_id : Option ℤ
  pub tmdb_id : Option ℤ
  pub kp_type : KpType
  pub title : String
  pub original_title : Option String
  pub year : Option ℤ
  pub poster_url : Option String
  pub overview : Option String
  pub rating_kp : Option ℤ
  pub genres : List String
  pub raw : String
  pub updated_at : ℕ

pub record TorrentRelease : Type 0 where
  pub id : ℕ
  pub media_item_id : ℕ
  pub source : String
  pub tracker : String
  pub title : String
  pub info_hash : String
  pub size_bytes : ℤ
  pub seeders : ℤ
  pub leechers : ℤ
  pub quality : Option String
  pub voiceover : Option String
  pub magnet : Option String
  pub fetched_at : ℕ
