-- ===== src/Arr/Kinds.antt =====
-- The values of the cache are of the kind that their keys say.
use seans.Prelude.{
  ℕ, ◌+◌, ◌≡◌, ◌∙◌, refl, sym, ap, inl, inr, concat, [], ◌∷◌, Option, none, some, arith, str_eq,
  str_eq_iff, Bool-cases, Option-cases,
}
use seans.Prelude.Dict.{lookup, insert, lookup-insert, string_eq}
use seans.Prelude.Options.{map_option, map_all, get}
use seans.Prelude.Decimal.{str}
use seans.Config.{seconds}
use seans.ArrCache.{fresh, store, get_or_set}
use seans.Arr.{
  Service, get_json, series_list_factory, one_series_factory, episode_list_factory,
  movie_list_factory, one_movie_factory, ArrValue, series_list, one_series, episode_list,
  movie_list, one_movie, ArrStore, ArrWorld, Outcome, returned, raised, mapped, to_option,
  or_outcome, get_cached, get_series, get_series_detail, get_episodes, get_movies, get_movie,
}
use seans.Arr.Mapping.{map_series, map_episode, map_movie}
use seans.Arr.Keys.{Key, Kind, key_text, key_kind, key_kind-of_text}

abbrev pub value_kind : ArrValue → Kind
value_kind (series_list ss) = Kind.all_series
value_kind (one_series s) = Kind.series
value_kind (episode_list es) = Kind.episodes
value_kind (movie_list ms) = Kind.all_movies
value_kind (one_movie m) = Kind.movie

-- What stands under a key is of the key's kind.
abbrev pub IsTyped : ArrStore → Type 0
IsTyped cache =
    (k : Key) (expires : ℕ) (v : ArrValue)
    → lookup (key_text k) cache ≡ some (expires, v)
    → value_kind v ≡ key_kind k

abbrev pub IsOfKind : Kind → Outcome ArrValue → Type 0
IsOfKind kind (returned v) = value_kind v ≡ kind
IsOfKind kind (raised e) = Unit

insert-IsTyped :
    (j : Key) (expires : ℕ) (v : ArrValue) (cache : ArrStore)
    → value_kind v ≡ key_kind j
    → IsTyped cache
    → IsTyped (insert (key_text j) (expires, v) cache)
insert-IsTyped j expires v cache fits typed k until w e =
    elim (Bool-cases (str_eq (key_text j) (key_text k))) [
      | inl same ↦
          let e' = rw (lookup-insert (key_text j) (key_text k) (expires, v) cache, same) at e in
          let stored : v ≡ w = ground arith in
          sym (ap value_kind stored)
          ∙ fits
          ∙ key_kind-of_text j k ((str_eq_iff (key_text j) (key_text k)).0 same)
      | inr other ↦
          let e' = rw (lookup-insert (key_text j) (key_text k) (expires, v) cache, other) at e in
          typed k until w e'
    ]

fresh-IsTyped :
    (k : Key) (now : ℕ) (cache : ArrStore) (v : ArrValue)
    → IsTyped cache
    → fresh now (lookup (key_text k) cache) ≡ some v
    → value_kind v ≡ key_kind k
unfolding fresh
fresh-IsTyped k now cache v typed e = elim (Option-cases (lookup (key_text k) cache)) [
  | inl missing ↦ let e' = rw missing at e in absurd (ground arith)
  | inr (entry, found) ↦
      let e' = rw found at e in
      let same : entry.1 ≡ v = ground arith in
      sym (ap value_kind same) ∙ typed k entry.0 entry.1 found
]

-- A call of the cache for a key, where the factory's value is of its kind, and other requests keep
-- the cache as it should be.
get_cached-IsTyped :
    (world : ArrWorld) (k : Key) (ttl : ℕ) (fetched : Outcome ArrValue) (cache : ArrStore)
    → IsOfKind (key_kind k) fetched
    → ((c : ArrStore) → IsTyped c → IsTyped (world.others c))
    → IsTyped cache
    → IsOfKind (key_kind k) (get_cached world (key_text k) ttl fetched cache).0
      × IsTyped (get_cached world (key_text k) ttl fetched cache).1
unfolding get_cached get_or_set store
get_cached-IsTyped world k ttl fetched cache made others typed =
    elim (Option-cases (fresh world.now (lookup (key_text k) cache))) [
      | inr (v, hit) ↦ rw hit (fresh-IsTyped k world.now cache v typed hit, typed)
      | inl stale ↦ rw stale (stored fetched made)
    ]
  where
    stored :
        (o : Outcome ArrValue)
        → IsOfKind (key_kind k) o
        → let out = store (key_text k) (seconds ttl) world.now (to_option o) (world.others cache) in
          IsOfKind (key_kind k) (or_outcome out.0 o) × IsTyped out.1
    stored (raised e) h = (tt, others cache typed)
    stored (returned v) h = (
      h,
      insert-IsTyped k (world.now + seconds ttl) v (world.others cache) h (others cache typed),
    )

mapped-IsOfKind {ℓ κ} :
    {A : Type ℓ} {B : Type κ} (kind : Kind) (f : A → Option B) (g : B → ArrValue) (o : Outcome A)
    → ((b : B) → value_kind (g b) ≡ kind)
    → IsOfKind kind (mapped (λ body. map_option g (f body)) o)
mapped-IsOfKind {B = B} kind f g (raised e) h = tt
mapped-IsOfKind {B = B} kind f g (returned body) h = from_option (f body)
  where
    from_option : (o : Option B) → IsOfKind kind (mapped (λ _. map_option g o) (returned body))
    from_option none = tt
    from_option (some b) = h b

-- The getter of a key.
abbrev pub arr_get : ArrWorld → Key → ArrStore → Outcome ArrValue × ArrStore
arr_get world Key.series_list = get_series world
arr_get world (Key.one_series n) = get_series_detail world n
arr_get world (Key.episode_list n) = get_episodes world n
arr_get world Key.movie_list = get_movies world
arr_get world (Key.one_movie n) = get_movie world n

-- Each of the five getters, from a cache where what stands under a key is of the key's kind: it
-- returns a value of its own kind or raises, and leaves such a cache. So the series with the number
-- `n`, its episodes, the list of all series and the two kinds of movies are never taken for one
-- another, for no number. (Other requests keep the cache so while the getter waits.)
pub arr_get_kinds :
    (world : ArrWorld) (k : Key) (cache : ArrStore)
    → ((c : ArrStore) → IsTyped c → IsTyped (world.others c))
    → IsTyped cache
    → IsOfKind (key_kind k) (arr_get world k cache).0 × IsTyped (arr_get world k cache).1
unfolding get_series get_series_detail get_episodes get_movies get_movie
arr_get_kinds world Key.series_list cache others typed =
    get_cached-IsTyped world Key.series_list world.settings.arr_cache_ttl_seconds
      (series_list_factory world) cache
      (mapped-IsOfKind Kind.all_series (λ body. map_all map_series (get body [])) series_list
        (get_json world.settings Service.sonarr "/api/v3/series" world.all_series) (λ _. refl))
      others typed
arr_get_kinds world (Key.one_series n) cache others typed =
    get_cached-IsTyped world (Key.one_series n) world.settings.arr_cache_ttl_seconds
      (one_series_factory world n) cache
      (mapped-IsOfKind Kind.series map_series one_series
        (get_json world.settings Service.sonarr (concat ("/api/v3/series/" ∷ str n ∷ []))
          world.series)
        (λ _. refl))
      others typed
arr_get_kinds world (Key.episode_list n) cache others typed =
    get_cached-IsTyped world (Key.episode_list n) world.settings.arr_episode_cache_ttl_seconds
      (episode_list_factory world n) cache
      (mapped-IsOfKind Kind.episodes (λ body. map_all map_episode (get body [])) episode_list
        (get_json world.settings Service.sonarr (concat ("/api/v3/episode?seriesId=" ∷ str n ∷ []))
          world.episodes)
        (λ _. refl))
      others typed
arr_get_kinds world Key.movie_list cache others typed =
    get_cached-IsTyped world Key.movie_list world.settings.arr_cache_ttl_seconds
      (movie_list_factory world) cache
      (mapped-IsOfKind Kind.all_movies (λ body. map_all map_movie (get body [])) movie_list
        (get_json world.settings Service.radarr "/api/v3/movie" world.all_movies) (λ _. refl))
      others typed
arr_get_kinds world (Key.one_movie n) cache others typed =
    get_cached-IsTyped world (Key.one_movie n) world.settings.arr_cache_ttl_seconds
      (one_movie_factory world n) cache
      (mapped-IsOfKind Kind.movie map_movie one_movie
        (get_json world.settings Service.radarr (concat ("/api/v3/movie/" ∷ str n ∷ []))
          world.movie)
        (λ _. refl))
      others typed
