-- ===== src/Kinopoisk/Films.antt =====
-- The media that a search finds (`search_kinopoisk` and what it calls), before they are stored.
use Prim.Native.Char.{code}
use seans.Prelude.{
  String, Bool, true, Option, none, some, List, [], ◌∷◌, ◌&&◌, ◌||◌, map, chars, is_truthy, or_text,
  str_eq, leb, if◌then◌else◌,
}
use seans.Prelude.Decimal.{value}
use seans.Prelude.Int.{ℤ, pos}
use seans.Prelude.Options.{get, map_option}
use seans.Table.{select}
use seans.Models.{KpType}
use seans.Regex.{Text, search, literal, same}
use seans.HttpClient.{Reply, Request, received}
use seans.Tmdb.{TmdbBody}
use seans.Kinopoisk.Fixtures.{MediaFields, mock_fixtures}

-- An item of `data["films"]`. `year` and `rating` are texts: a JSON number stands as Python prints
-- it, and a year that is 0 as none. The description may be there and be `null`.
pub record FilmItem : Type 0 where
  pub type : Option String
  pub film_id : Option ℤ
  pub name_ru : Option String
  pub name_en : Option String
  pub year : Option String
  pub poster_url : Option String
  pub description : Option (Option String)
  pub rating : Option String
  pub genres : List (Option String)

-- The world of the search. `tenths` is `float(text)` as the column `Numeric(3, 1)` holds it, `none`
-- where `float` raises; `json` is the text of the dictionary of a medium.
pub record Kinopoisk : Type 0 where
  pub kp_api_token : String
  pub tmdb_api_token : String
  pub films : Request → Reply (List FilmItem)
  pub tmdb : Request → Reply TmdbBody
  pub lower : String → String
  pub tenths : String → Option ℤ
  pub json : MediaFields → String

-- `_parse_rating`
unfoldable pub parse_rating : (String → Option ℤ) → Option String → Option ℤ
parse_rating tenths none = none
parse_rating tenths (some rating) =
    if str_eq rating "" then none else if str_eq rating "null" then none else tenths rating

-- `q in text`
abbrev pub holds : String → String → Bool
holds q text_ = search (literal same (chars q)) (chars text_)

unfoldable pub search_mock : (String → String) → String → List MediaFields
unfolding search
search_mock lower query =
    select
      (λ f.
        holds (lower query) (lower f.title)
        || holds (lower query) (lower (or_text (f.original_title ∷ []) "")))
      mock_fixtures

-- `item.get("type") == "TV_SERIES"`
abbrev pub kp_type_of : Option String → KpType
kp_type_of none = KpType.movie
kp_type_of (some type) = if str_eq type "TV_SERIES" then KpType.tv else KpType.movie

-- `str.isdigit`, for the digits of ASCII.
abbrev pub all_digits : Text → Bool
all_digits [] = true
all_digits (c ∷ cs) = leb b'0' (code c) && leb (code c) b'9' && all_digits cs

abbrev pub year_of : Option String → Option ℤ
year_of none = none
year_of (some year) =
    if is_truthy year && all_digits (chars year) then some (pos (value 0 (chars year))) else none

-- `[g["genre"] for g in … if g.get("genre")]`
abbrev pub genre_names : List (Option String) → List String
genre_names [] = []
genre_names (none ∷ gs) = genre_names gs
genre_names (some genre ∷ gs) =
    let rest = genre_names gs in if is_truthy genre then genre ∷ rest else rest

unfoldable pub film_fields : (String → Option ℤ) → FilmItem → MediaFields
unfolding parse_rating
film_fields tenths item = record {
  kp_id = item.film_id;
  kp_type = kp_type_of item.type;
  title = or_text (item.name_ru ∷ item.name_en ∷ []) "";
  original_title = item.name_en;
  year = year_of item.year;
  poster_url = item.poster_url;
  overview = get item.description (some "");
  rating_kp = parse_rating tenths item.rating;
  genres = genre_names item.genres;
  tmdb_id = none;
}

abbrev pub films_request : String → String → Request
films_request token query = record {
  url = "https://kinopoiskapiunofficial.tech/api/v2.1/films/search-by-keyword";
  headers = ("X-API-KEY", token) ∷ [];
  params = ("keyword", query) ∷ ("page", "1") ∷ [];
}

-- `none` where an exception is raised.
unfoldable pub search_kinopoisk : Kinopoisk → String → Option (List MediaFields)
unfolding search_mock received film_fields
search_kinopoisk kp query =
    if is_truthy kp.kp_api_token
    then map_option (map (film_fields kp.tenths))
        (received (kp.films (films_request kp.kp_api_token query)))
    else some (search_mock kp.lower query)
