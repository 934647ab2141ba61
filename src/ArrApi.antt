-- ===== src/ArrApi.antt =====
-- app/routers/arr.py: the requests for series and movies, over the getters of Arr.
pub mod Refresh
use seans.Prelude.{String, Bool, if◌then◌else◌}
use seans.Prelude.Decimal.{str}
use seans.Prelude.Int.{ℤ}
use seans.Http.{Result, HttpException, Action, ok, raise, http, internal_server_error}
use seans.ArrCache.{delete}
use seans.Arr.{
  ArrException, arr_error, arr_not_configured, arr_not_found, uncaught, ArrValue, ArrStore,
  ArrWorld, Outcome, returned, raised, series_list_key, series_key, episodes_key, movie_list_key,
  movie_key, get_series, get_series_detail, get_episodes, get_movies, get_movie,
}

-- The handlers of exceptions, `_map_arr_error`, `_map_not_configured` and `_map_not_found`, of a
-- request for one entity.
unfoldable pub entity_error : ArrException → HttpException
entity_error (arr_error text_) = http 502 text_
entity_error (arr_not_configured text_) = http 503 text_
entity_error (arr_not_found text_) = http 404 text_
entity_error uncaught = internal_server_error

-- Those of a request for a list, which do not catch `ArrNotFound`.
unfoldable pub list_error : ArrException → HttpException
list_error (arr_error text_) = http 502 text_
list_error (arr_not_configured text_) = http 503 text_
list_error (arr_not_found text_) = internal_server_error
list_error uncaught = internal_server_error

abbrev pub respond : (ArrException → HttpException) → Outcome ArrValue → Result ArrValue
respond errors (returned v) = ok v
respond errors (raised e) = raise (errors e)

-- The body of the five handlers: `if refresh: arr_cache.delete(key)`, and the getter.
unfoldable pub handle :
    (ArrException → HttpException)
    → String
    → (ArrStore → Outcome ArrValue × ArrStore)
    → Bool
    → Action ArrStore ArrValue
unfolding delete
handle errors key getter refresh cache =
    let (outcome, cache') = getter (if refresh then delete key cache else cache) in
    (respond errors outcome, cache')

unfoldable pub list_series : ArrWorld → Bool → Action ArrStore ArrValue
unfolding list_error handle get_series
list_series world = handle list_error series_list_key (get_series world)

-- `get_series` of the router.
unfoldable pub get_one_series : ArrWorld → ℤ → Bool → Action ArrStore ArrValue
unfolding entity_error handle get_series_detail str
get_one_series world sonarr_id =
    handle entity_error (series_key sonarr_id) (get_series_detail world sonarr_id)

unfoldable pub get_series_episodes : ArrWorld → ℤ → Bool → Action ArrStore ArrValue
unfolding entity_error handle get_episodes str
get_series_episodes world sonarr_id =
    handle entity_error (episodes_key sonarr_id) (get_episodes world sonarr_id)

unfoldable pub list_movies : ArrWorld → Bool → Action ArrStore ArrValue
unfolding list_error handle get_movies
list_movies world = handle list_error movie_list_key (get_movies world)

-- `get_movie` of the router.
unfoldable pub get_one_movie : ArrWorld → ℤ → Bool → Action ArrStore ArrValue
unfolding entity_error handle get_movie str
get_one_movie world radarr_id =
    handle entity_error (movie_key radarr_id) (get_movie world radarr_id)
