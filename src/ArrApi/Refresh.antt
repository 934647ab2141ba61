-- ===== src/ArrApi/Refresh.antt =====
-- A request with `refresh`, against the service without its cache.
use seans.Prelude.{ℕ, ◌≡◌, refl, ap, Bool, true, String, some, none}
use seans.Config.{seconds}
use seans.ArrCache.Freshness.{delete_refreshes}
use seans.Http.{Result, Action}
use seans.ArrCache.{store, delete}
use seans.Arr.{
  ArrValue, ArrStore, ArrWorld, Outcome, returned, raised, get_cached, series_list_factory,
  one_series_factory, episode_list_factory, movie_list_factory, one_movie_factory, get_series,
  get_series_detail, get_episodes, get_movies, get_movie,
}
use seans.Arr.Keys.{Key}
use seans.ArrApi.{
  entity_error, list_error, respond, handle, list_series, get_one_series, get_series_episodes,
  list_movies, get_one_movie,
}

-- The handler of a key.
abbrev pub arr_request : ArrWorld → Key → Bool → Action ArrStore ArrValue
arr_request world Key.series_list = list_series world
arr_request world (Key.one_series n) = get_one_series world n
arr_request world (Key.episode_list n) = get_series_episodes world n
arr_request world Key.movie_list = list_movies world
arr_request world (Key.one_movie n) = get_one_movie world n

-- The answer with no cache at all: what the service sends now, or the exception.
abbrev pub direct : ArrWorld → Key → Result ArrValue
direct world Key.series_list = respond list_error (series_list_factory world)
direct world (Key.one_series n) = respond entity_error (one_series_factory world n)
direct world (Key.episode_list n) = respond entity_error (episode_list_factory world n)
direct world Key.movie_list = respond list_error (movie_list_factory world)
direct world (Key.one_movie n) = respond entity_error (one_movie_factory world n)

refetched :
    (world : ArrWorld) (key : String) (ttl : ℕ) (fetched : Outcome ArrValue) (cache : ArrStore)
    → (get_cached world key ttl fetched (delete key cache)).0 ≡ fetched
unfolding get_cached store
refetched world key ttl (returned v) cache =
    rw (delete_refreshes key key (seconds ttl) world.now (λ c. (some v, world.others c)) cache).0
      refl
refetched world key ttl (raised e) cache =
    rw (delete_refreshes key key (seconds ttl) world.now (λ c. (none, world.others c)) cache).0 refl

-- Each of the five requests with `refresh` answers what the service without the cache answers,
-- whatever the cache holds.
pub refresh_direct :
    (world : ArrWorld) (k : Key) (cache : ArrStore)
    → (arr_request world k true cache).0 ≡ direct world k
unfolding list_series get_one_series get_series_episodes list_movies get_one_movie handle get_series
    get_series_detail get_episodes get_movies get_movie
refresh_direct world Key.series_list cache = ap (respond list_error) (refetched world _ _ _ cache)
refresh_direct world (Key.one_series n) cache =
    ap (respond entity_error) (refetched world _ _ _ cache)
refresh_direct world (Key.episode_list n) cache =
    ap (respond entity_error) (refetched world _ _ _ cache)
refresh_direct world Key.movie_list cache = ap (respond list_error) (refetched world _ _ _ cache)
refresh_direct world (Key.one_movie n) cache =
    ap (respond entity_error) (refetched world _ _ _ cache)
