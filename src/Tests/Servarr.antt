-- ===== src/Tests/Servarr.antt =====
-- The clients of Sonarr and Radarr.
use seans.Prelude.{◌∷◌, true, ◌≡◌, refl, false, none, some, [], arith}
use seans.Prelude.Dict.{lookup, string_eq}
use seans.Prelude.Int.{pos}
use seans.Http.{raise, internal_server_error}
use seans.HttpClient.{failed, replied, rstrip_slash}
use seans.ArrCache.{get_or_set, fresh, store}
use seans.Arr.Mapping.{RawSeries}
use seans.Arr.{
  ArrSettings, ArrStore, ArrValue, ArrWorld, get_cached, get_json, json_of, require_configured,
  service_settings, get_series,
}
use seans.Arr.Keys.{Key, key_kind}
use seans.Arr.Kinds.{IsTyped, IsOfKind, arr_get, arr_get_kinds}
use seans.ArrApi.Refresh.{arr_request, direct, refresh_direct}
use seans.ArrApi.{list_series, handle, list_error}

abbrev arr_settings : ArrSettings
arr_settings = record {
  sonarr_url = "http://sonarr/";
  sonarr_api_key = "key";
  radarr_url = "";
  radarr_api_key = "";
  arr_cache_ttl_seconds = 300;
  arr_episode_cache_ttl_seconds = 1800;
}

abbrev raw_series : RawSeries
raw_series = record {
  id = some (pos 3);
  title = some "Dune";
  year = some (pos 2021);
  status = none;
  overview = none;
  images = none;
  network = none;
  tvdb_id = none;
  path = none;
  seasons = none;
}

abbrev world : ArrWorld
world = record {
  settings = arr_settings;
  all_series = λ _. replied 404 none;
  series = λ _. replied 200 (some raw_series);
  episodes = λ _. failed;
  all_movies = λ _. failed;
  movie = λ _. failed;
  now = 10;
  others = λ c. c;
}

empty-IsTyped : IsTyped []
unfolding lookup
empty-IsTyped k expires v e = absurd (ground arith)

arr_get_kinds_example :
    IsOfKind (key_kind (Key.one_series (pos 3))) (arr_get world (Key.one_series (pos 3)) []).0
    × IsTyped (arr_get world (Key.one_series (pos 3)) []).1
arr_get_kinds_example =
    arr_get_kinds world (Key.one_series (pos 3)) [] (λ c typed. typed) empty-IsTyped

-- A service that does not know the path of the list is answered with 500.
list_series_not_found : (list_series world false []).0 ≡ raise internal_server_error
unfolding list_series handle list_error get_series get_cached get_or_set fresh store lookup get_json
    json_of require_configured service_settings rstrip_slash
list_series_not_found = refl

-- An entry that is fresh, and of no use after a refresh.
abbrev stale_cache : ArrStore
stale_cache = ("arr:series:3", (999, ArrValue.movie_list [])) ∷ []

refresh_direct_example :
    (arr_request world (Key.one_series (pos 3)) true stale_cache).0
    ≡ direct world (Key.one_series (pos 3))
refresh_direct_example = refresh_direct world (Key.one_series (pos 3)) stale_cache
