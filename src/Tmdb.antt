-- ===== src/Tmdb.antt =====
-- app/services/tmdb.py: the TMDB id of a medium, from the first of its titles that the search finds.
-- The search's answers are a parameter.
use seans.Prelude.{
  String, Option, none, some, List, [], ◌∷◌, ◌++◌, concat, is_truthy, str_eq, if◌then◌else◌,
}
use seans.Prelude.Decimal.{str}
use seans.Prelude.Int.{ℤ}
use seans.Table.{exists}
use seans.Models.{KpType}
use seans.HttpClient.{Reply, Request, received}

-- `_search_endpoint`
abbrev pub search_endpoint : KpType → String × String
search_endpoint KpType.tv = ("/search/tv", "first_air_date_year")
search_endpoint KpType.movie = ("/search/movie", "year")

-- One value of the loop of `_query_candidates`.
abbrev pub add_candidate : List String → String → List String
add_candidate candidates value =
    if is_truthy value
    then if exists (str_eq value) candidates then candidates else candidates ++ value ∷ []
    else candidates

-- `for value in (original_title, title)`
unfoldable pub query_candidates : String → Option String → List String
query_candidates title none = add_candidate [] title
query_candidates title (some original_title) = add_candidate (add_candidate [] original_title) title

-- `if year is not None: params[year_param] = year`
abbrev pub year_params : String → Option ℤ → List (String × String)
year_params year_param none = []
year_params year_param (some year) = (year_param, str year) ∷ []

abbrev pub tmdb_request : String → String × String → Option ℤ → String → Request
tmdb_request token endpoint year query = record {
  url = concat ("https://api.themoviedb.org/3" ∷ endpoint.0 ∷ []);
  headers = [];
  params =
      ("api_key", token) ∷ ("query", query) ∷ ("language", "en-US") ∷ year_params endpoint.1 year;
}

-- `data.get("results") or []`: of each result its `id`, unless that is no integer.
abbrev pub TmdbBody : Type 0
TmdbBody = List (Option ℤ)

-- The loop over the queries. An exception ends it with nothing.
unfoldable pub first_result : (String → Reply TmdbBody) → List String → Option ℤ
unfolding received
first_result get [] = none
first_result get (query ∷ queries) =
    let later = first_result get queries in
    elim (received (get query)) [
      | none ↦ none
      | some results ↦ elim results [ [] ↦ later | ◌∷◌ id ids ↦ id ]
    ]

-- It never raises: whatever the code catches is `none`.
unfoldable pub resolve_tmdb_id :
    String → (Request → Reply TmdbBody) → String → Option String → Option ℤ → KpType → Option ℤ
unfolding query_candidates first_result str
resolve_tmdb_id token get title original_title year kp_type =
    if is_truthy token
    then first_result (λ query. get (tmdb_request token (search_endpoint kp_type) year query))
        (query_candidates title original_title)
    else none
