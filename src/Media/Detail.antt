-- ===== src/Media/Detail.antt =====
-- `MediaDetail` of app/schemas/media.py, the answer that `get_media` makes of the row it returns.
use seans.Prelude.{ℕ, String, Option, List}
use seans.Prelude.Int.{ℤ}
use seans.Models.{MediaItem, KpType}

pub record MediaDetail : Type 0 where
  pub id : ℕ
  pub kp_id : Option ℤ
  pub tmdb_id : Option ℤ
  pub kp_type : KpType
  pub title : String
  pub original_title : Option String
  pub year : Option ℤ
  pub poster_url : Option String
  pub overview : Option String
  pub rating_kp : Option ℤ
  pub genres : List String
  pub updated_at : ℕ

-- `MediaDetail.model_validate(item)`
abbrev pub media_detail : MediaItem → MediaDetail
media_detail item = record {
  id = item.id;
  kp_id = item.kp_id;
  tmdb_id = item.tmdb_id;
  kp_type = item.kp_type;
  title = item.title;
  original_title = item.original_title;
  year = item.year;
  poster_url = item.poster_url;
  overview = item.overview;
  rating_kp = item.rating_kp;
  genres = item.genres;
  updated_at = item.updated_at;
}
