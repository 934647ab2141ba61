-- ===== src/Arr.antt =====
-- app/services/arr.py: the clients of Sonarr and Radarr, behind the cache of ArrCache. The answers
-- of the two services are parameters, and so is what other requests do to the cache during a fetch.
pub mod Mapping
pub mod Keys
pub mod Kinds
use seans.Prelude.{
  ℕ, String, Bool, true, false, not, Option, none, some, List, [], ◌∷◌, ◌==◌, ◌&&◌, concat,
  is_truthy, if◌then◌else◌,
}
use seans.Prelude.Decimal.{str}
use seans.Prelude.Int.{ℤ}
use seans.Prelude.Options.{◌>>=◌, map_all, get, map_option}
use seans.Config.{seconds}
use seans.HttpClient.{Reply, failed, replied, Request, is_success, rstrip_slash}
use seans.ArrCache.{TtlCache, get_or_set}
use seans.Arr.Mapping.{
  ArrSeries, ArrEpisode, ArrMovie, RawSeries, RawEpisode, RawMovie, map_series, map_episode,
  map_movie,
}

pub record ArrSettings : Type 0 where
  pub sonarr_url : String
  pub sonarr_api_key : String
  pub radarr_url : String
  pub radarr_api_key : String
  pub arr_cache_ttl_seconds : ℕ
  pub arr_episode_cache_ttl_seconds : ℕ

-- The exceptions of the module, with their texts, and the ones that no handler catches: a body that
-- is no JSON, or an item without an id.
pub data ArrException : Type 0 where
  arr_error : String → ArrException
  arr_not_configured : String → ArrException
  arr_not_found : String → ArrException
  uncaught : ArrException

pub data Outcome {ℓ} (A : Type ℓ) : Type ℓ where
  returned : A → Outcome A
  raised : ArrException → Outcome A

pub data Service : Type 0 where
  sonarr radarr : Service

abbrev pub service_name : Service → String
service_name Service.sonarr = "sonarr"
service_name Service.radarr = "radarr"

-- `_service_settings`
unfoldable pub service_settings : ArrSettings → Service → String × String
unfolding rstrip_slash
service_settings settings Service.sonarr =
    (rstrip_slash settings.sonarr_url, settings.sonarr_api_key)
service_settings settings Service.radarr =
    (rstrip_slash settings.radarr_url, settings.radarr_api_key)

-- `_require_configured`
unfoldable pub require_configured : ArrSettings → Service → Outcome (String × String)
unfolding service_settings
require_configured settings service =
    let (base_url, api_key) = service_settings settings service in
    if is_truthy base_url && is_truthy api_key
    then returned (base_url, api_key)
    else raised (arr_not_configured (concat (service_name service ∷ " is not configured" ∷ [])))

-- What `_get_json` makes of an answer.
unfoldable pub json_of {ℓ} : {A : Type ℓ} → Service → String → Reply A → Outcome A
json_of service path failed =
    raised (arr_error (concat (service_name service ∷ " request failed" ∷ [])))
json_of service path (replied status_code data_) =
    if status_code == 404
    then raised (arr_not_found (concat (service_name service ∷ " " ∷ path ∷ " not found" ∷ [])))
    else if is_success status_code
    then elim data_ [ none ↦ raised uncaught | some body ↦ returned body ]
    else raised (arr_error (concat (service_name service ∷ " request failed" ∷ [])))

-- `_get_json`, of a service that answers to a request.
unfoldable pub get_json {ℓ} :
    {A : Type ℓ} → ArrSettings → Service → String → (Request → Reply A) → Outcome A
unfolding require_configured json_of
get_json settings service path get = elim (require_configured settings service) [
  | raised e ↦ raised e
  | returned (base_url, api_key) ↦ json_of service path (
      get (record {
        url = concat (base_url ∷ path ∷ []);
        headers = ("X-Api-Key", api_key) ∷ [];
        params = [];
      }))
]

-- The rest of a `factory`: the records of the body.
abbrev pub mapped {ℓ κ} : {A : Type ℓ} {B : Type κ} → (A → Option B) → Outcome A → Outcome B
mapped f (raised e) = raised e
mapped f (returned body) = elim (f body) [ none ↦ raised uncaught | some b ↦ returned b ]

-- A value of the cache, which holds values of any type: the ones that this module puts into it.
pub data ArrValue : Type 0 where
  series_list : List ArrSeries → ArrValue
  one_series : ArrSeries → ArrValue
  episode_list : List ArrEpisode → ArrValue
  movie_list : List ArrMovie → ArrValue
  one_movie : ArrMovie → ArrValue

abbrev pub ArrStore : Type 0
ArrStore = TtlCache ArrValue

-- What the module meets: its settings, the services, the time, and what other requests do to the
-- cache while a factory runs.
pub record ArrWorld : Type 0 where
  pub settings : ArrSettings
  pub all_series : Request → Reply (Option (List RawSeries))
  pub series : Request → Reply RawSeries
  pub episodes : Request → Reply (Option (List RawEpisode))
  pub all_movies : Request → Reply (Option (List RawMovie))
  pub movie : Request → Reply RawMovie
  pub now : ℕ
  pub others : ArrStore → ArrStore

abbrev pub to_option {ℓ} : {A : Type ℓ} → Outcome A → Option A
to_option (returned a) = some a
to_option (raised e) = none

-- The value of the cache, or else what the factory returned or raised.
abbrev pub or_outcome {ℓ} : {A : Type ℓ} → Option A → Outcome A → Outcome A
or_outcome none fetched = fetched
or_outcome (some a) fetched = returned a

-- `await arr_cache.get_or_set(key, float(ttl), factory)`, where the factory would return or raise
-- `fetched`.
unfoldable pub get_cached :
    ArrWorld → String → ℕ → Outcome ArrValue → ArrStore → Outcome ArrValue × ArrStore
unfolding get_or_set
get_cached world key ttl fetched cache =
    let (result, cache') =
      get_or_set key (seconds ttl) world.now (λ c. (to_option fetched, world.others c)) cache in
    (or_outcome result fetched, cache')

abbrev pub series_list_key : String
series_list_key = "arr:series:list"

abbrev pub series_key : ℤ → String
series_key sonarr_id = concat ("arr:series:" ∷ str sonarr_id ∷ [])

abbrev pub episodes_key : ℤ → String
episodes_key sonarr_id = concat ("arr:series:" ∷ str sonarr_id ∷ ":episodes" ∷ [])

abbrev pub movie_list_key : String
movie_list_key = "arr:movies:list"

abbrev pub movie_key : ℤ → String
movie_key radarr_id = concat ("arr:movies:" ∷ str radarr_id ∷ [])

-- Each getter stands after its `factory`.
abbrev pub series_list_factory : ArrWorld → Outcome ArrValue
series_list_factory world =
    mapped (λ body. map_option series_list (map_all map_series (get body [])))
      (get_json world.settings Service.sonarr "/api/v3/series" world.all_series)

unfoldable pub get_series : ArrWorld → ArrStore → Outcome ArrValue × ArrStore
unfolding get_cached get_json map_series
get_series world =
    get_cached world series_list_key world.settings.arr_cache_ttl_seconds
      (series_list_factory world)

abbrev pub one_series_factory : ArrWorld → ℤ → Outcome ArrValue
one_series_factory world sonarr_id =
    mapped (λ body. map_option one_series (map_series body))
      (get_json world.settings Service.sonarr (concat ("/api/v3/series/" ∷ str sonarr_id ∷ []))
        world.series)

unfoldable pub get_series_detail : ArrWorld → ℤ → ArrStore → Outcome ArrValue × ArrStore
unfolding get_cached get_json map_series str
get_series_detail world sonarr_id =
    get_cached world (series_key sonarr_id) world.settings.arr_cache_ttl_seconds
      (one_series_factory world sonarr_id)

abbrev pub episode_list_factory : ArrWorld → ℤ → Outcome ArrValue
episode_list_factory world sonarr_id =
    mapped (λ body. map_option episode_list (map_all map_episode (get body [])))
      (get_json world.settings Service.sonarr
        (concat ("/api/v3/episode?seriesId=" ∷ str sonarr_id ∷ [])) world.episodes)

unfoldable pub get_episodes : ArrWorld → ℤ → ArrStore → Outcome ArrValue × ArrStore
unfolding get_cached get_json map_episode str
get_episodes world sonarr_id =
    get_cached world (episodes_key sonarr_id) world.settings.arr_episode_cache_ttl_seconds
      (episode_list_factory world sonarr_id)

abbrev pub movie_list_factory : ArrWorld → Outcome ArrValue
movie_list_factory world =
    mapped (λ body. map_option movie_list (map_all map_movie (get body [])))
      (get_json world.settings Service.radarr "/api/v3/movie" world.all_movies)

unfoldable pub get_movies : ArrWorld → ArrStore → Outcome ArrValue × ArrStore
unfolding get_cached get_json map_movie
get_movies world =
    get_cached world movie_list_key world.settings.arr_cache_ttl_seconds (movie_list_factory world)

abbrev pub one_movie_factory : ArrWorld → ℤ → Outcome ArrValue
one_movie_factory world radarr_id =
    mapped (λ body. map_option one_movie (map_movie body))
      (get_json world.settings Service.radarr (concat ("/api/v3/movie/" ∷ str radarr_id ∷ []))
        world.movie)

unfoldable pub get_movie : ArrWorld → ℤ → ArrStore → Outcome ArrValue × ArrStore
unfolding get_cached get_json map_movie str
get_movie world radarr_id =
    get_cached world (movie_key radarr_id) world.settings.arr_cache_ttl_seconds
      (one_movie_factory world radarr_id)
