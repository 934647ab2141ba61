-- ===== src/ArrCache.antt =====
-- app/services/arr_cache.py: the cache with a time to live in front of Sonarr and Radarr. The
-- `factory` is awaited between the look-up and the write, and its result is `none` if it raises; what
-- it returns is a value of any type. Other requests may use the cache while it runs: `get_or_set`
-- takes the cache as it stands at the end of the call of the factory.
pub mod Freshness
use text.Mathlib.Text.{starts_with}
use seans.Prelude.{
  ℕ, ◌+◌, String, Bool, true, false, Option, none, some, List, [], ◌∷◌, length, ltb, if◌then◌else◌,
}
use seans.Prelude.Dict.{Dict, lookup, insert, erase, string_eq}

-- `self._store`: each value with the time at which it expires.
abbrev pub TtlCache {ℓ} : Type ℓ → Type ℓ
TtlCache A = Dict String (ℕ × A)

module _ {ℓ} {A : Type ℓ} where
  -- `if hit is not None and hit[0] > now: return hit[1]`
  unfoldable pub fresh : ℕ → Option (ℕ × A) → Option A
  fresh now none = none
  fresh now (some (expires, value)) = if ltb now expires then some value else none

  -- What a call stores when the factory has returned.
  unfoldable pub store : String → ℕ → ℕ → Option A → TtlCache A → Option A × TtlCache A
  store key ttl now none cache = (none, cache)
  store key ttl now (some value) cache = (some value, insert key (now + ttl, value) cache)

  -- The rest of `get_or_set` after the look-up; `factory` gives the result and the cache at that time.
  unfoldable pub use_hit :
      String
      → ℕ
      → ℕ
      → (TtlCache A → Option A × TtlCache A)
      → Option A
      → TtlCache A
      → Option A × TtlCache A
  unfolding store
  use_hit key ttl now factory (some value) cache = (some value, cache)
  use_hit key ttl now factory none cache =
      let (result, cache') = factory cache in store key ttl now result cache'

  unfoldable pub get_or_set :
      String → ℕ → ℕ → (TtlCache A → Option A × TtlCache A) → TtlCache A → Option A × TtlCache A
  unfolding use_hit
  get_or_set key ttl now factory cache =
      use_hit key ttl now factory (fresh now (lookup key cache)) cache

  -- The loop over the keys with a prefix.
  unfoldable pub drop_prefix : String → TtlCache A → TtlCache A
  drop_prefix prefix [] = []
  drop_prefix prefix ((key, entry) ∷ cache) =
      let rest = drop_prefix prefix cache in
      if starts_with key prefix then rest else (key, entry) ∷ rest

  unfoldable pub invalidate : Option String → TtlCache A → TtlCache A
  unfolding drop_prefix
  invalidate none cache = []
  invalidate (some prefix) cache = drop_prefix prefix cache

  unfoldable pub delete : String → TtlCache A → TtlCache A
  delete key cache = erase key cache

  -- `__len__`
  unfoldable pub size : TtlCache A → ℕ
  size cache = length cache
