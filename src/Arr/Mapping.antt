-- ===== src/Arr/Mapping.antt =====
-- app/schemas/arr.py, and the functions of app/services/arr.py that make its records of the JSON that
-- Sonarr and Radarr send. A field that is absent or null is `none`; one of another JSON type is not
-- modelled. `raw["id"]` raises where there is none.
use seans.Prelude.{
  String, Bool, false, Option, none, some, List, [], ◌∷◌, map, or_text, or_option, str_eq,
  if◌then◌else◌,
}
use seans.Prelude.Int.{ℤ, pos, or_zero}
use seans.Prelude.Options.{◌>>=◌, get}

pub record ArrSeason : Type 0 where
  pub season_number : ℤ
  pub monitored : Bool
  pub episode_count : ℤ
  pub episode_file_count : ℤ

pub record ArrSeries : Type 0 where
  pub id : ℤ
  pub title : String
  pub year : Option ℤ
  pub status : String
  pub overview : Option String
  pub poster_url : Option String
  pub network : Option String
  pub tvdb_id : Option ℤ
  pub path : Option String
  pub seasons : List ArrSeason

pub record ArrEpisode : Type 0 where
  pub id : ℤ
  pub season_number : ℤ
  pub episode_number : ℤ
  pub title : Option String
  pub overview : Option String
  pub air_date : Option String
  pub has_file : Bool
  pub monitored : Bool

pub record ArrMovie : Type 0 where
  pub id : ℤ
  pub title : String
  pub year : Option ℤ
  pub overview : Option String
  pub poster_url : Option String
  pub status : String
  pub has_file : Bool
  pub monitored : Bool
  pub tmdb_id : Option ℤ
  pub path : Option String

pub record RawStatistics : Type 0 where
  pub total_episode_count : Option ℤ
  pub episode_file_count : Option ℤ

pub record RawSeason : Type 0 where
  pub season_number : Option ℤ
  pub monitored : Option Bool
  pub statistics : Option RawStatistics

pub record RawImage : Type 0 where
  pub cover_type : Option String
  pub remote_url : Option String
  pub url : Option String

pub record RawSeries : Type 0 where
  pub id : Option ℤ
  pub title : Option String
  pub year : Option ℤ
  pub status : Option String
  pub overview : Option String
  pub images : Option (List RawImage)
  pub network : Option String
  pub tvdb_id : Option ℤ
  pub path : Option String
  pub seasons : Option (List RawSeason)

pub record RawEpisode : Type 0 where
  pub id : Option ℤ
  pub season_number : Option ℤ
  pub episode_number : Option ℤ
  pub title : Option String
  pub overview : Option String
  pub air_date : Option String
  pub air_date_utc : Option String
  pub has_file : Option Bool
  pub monitored : Option Bool

pub record RawMovie : Type 0 where
  pub id : Option ℤ
  pub title : Option String
  pub year : Option ℤ
  pub overview : Option String
  pub images : Option (List RawImage)
  pub status : Option String
  pub has_file : Option Bool
  pub monitored : Option Bool
  pub tmdb_id : Option ℤ
  pub path : Option String

-- `stats.get(…)`, where `stats` is `raw.get("statistics") or {}`.
abbrev pub count_of : (RawStatistics → Option ℤ) → Option RawStatistics → ℤ
count_of field none = pos 0
count_of field (some stats) = or_zero (field stats ∷ [])

abbrev pub map_season : RawSeason → ArrSeason
map_season raw = record {
  season_number = get raw.season_number (pos 0);
  monitored = get raw.monitored false;
  episode_count = count_of (λ stats. stats.total_episode_count) raw.statistics;
  episode_file_count = count_of (λ stats. stats.episode_file_count) raw.statistics;
}

-- `image.get("coverType") == cover_type`
abbrev pub is_cover : String → RawImage → Bool
is_cover cover_type image = elim image.cover_type [
  | none ↦ false
  | some type ↦ str_eq type cover_type
]

-- The loop of `_first_image`.
unfoldable pub find_image : String → List RawImage → Option String
find_image cover_type [] = none
find_image cover_type (image ∷ images) =
    let later = find_image cover_type images in
    if is_cover cover_type image then or_option image.remote_url image.url else later

unfoldable pub first_image : Option (List RawImage) → String → Option String
unfolding find_image
first_image images cover_type = find_image cover_type (get images [])

unfoldable pub map_series : RawSeries → Option ArrSeries
unfolding first_image
map_series raw = raw.id >>= λ id. some (record {
  id = id;
  title = or_text (raw.title ∷ []) "";
  year = raw.year;
  status = or_text (raw.status ∷ []) "unknown";
  overview = raw.overview;
  poster_url = first_image raw.images "poster";
  network = raw.network;
  tvdb_id = raw.tvdb_id;
  path = raw.path;
  seasons = map map_season (get raw.seasons []);
})

unfoldable pub map_episode : RawEpisode → Option ArrEpisode
map_episode raw = raw.id >>= λ id. some (record {
  id = id;
  season_number = get raw.season_number (pos 0);
  episode_number = get raw.episode_number (pos 0);
  title = raw.title;
  overview = raw.overview;
  air_date = or_option raw.air_date raw.air_date_utc;
  has_file = get raw.has_file false;
  monitored = get raw.monitored false;
})

unfoldable pub map_movie : RawMovie → Option ArrMovie
unfolding first_image
map_movie raw = raw.id >>= λ id. some (record {
  id = id;
  title = or_text (raw.title ∷ []) "";
  year = raw.year;
  overview = raw.overview;
  poster_url = first_image raw.images "poster";
  status = or_text (raw.status ∷ []) "unknown";
  has_file = get raw.has_file false;
  monitored = get raw.monitored false;
  tmdb_id = raw.tmdb_id;
  path = raw.path;
})
