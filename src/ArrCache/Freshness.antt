-- ===== src/ArrCache/Freshness.antt =====
-- What a cached value is good for.
use text.Mathlib.Text.{starts_with}
use text.Mathlib.TextPositions.{eq_refl}
use seans.Prelude.{
  ℕ, ◌+◌, ◌<◌, ◌≡◌, ◌≢◌, refl, String, true, Option, none, some, [], ◌∷◌, ltb, arith, str_eq_iff,
  if◌then◌else◌,
}
use seans.Prelude.Dict.{lookup, lookup-insert, lookup-erase, string_eq}
use seans.ArrCache.{TtlCache, fresh, store, get_or_set, drop_prefix, invalidate, delete}

module _ {ℓ} {A : Type ℓ} (key : String) (ttl now : ℕ)
    (factory : TtlCache A → Option A × TtlCache A) (cache : TtlCache A) where
  -- After a call whose factory ran and returned a value, a call for the key within the time to
  -- live, counted from the start of that call, returns that value, runs no factory and writes nothing.
  get_or_set_twice :
      (value : A) (later : ℕ) (factory' : TtlCache A → Option A × TtlCache A)
      → fresh now (lookup key cache) ≡ none
      → (factory cache).0 ≡ some value
      → later < now + ttl
      → let cache' = (get_or_set key ttl now factory cache).1 in
        get_or_set key ttl later factory' cache' ≡ (some value, cache')
  unfolding get_or_set fresh
  get_or_set_twice value later factory' stale made within =
      let in_time : ltb later (now + ttl) ≡ true = ground arith in
      rw (stale, made, lookup-insert key key (now + ttl, value) (factory cache).1, eq_refl, in_time)
        refl

-- After `delete` the next call for the key asks the factory, and the other keys keep their entries.
pub delete_refreshes {ℓ} :
    {A : Type ℓ} (key other : String) (ttl now : ℕ) (factory : TtlCache A → Option A × TtlCache A)
    (cache : TtlCache A)
    → (get_or_set key ttl now factory (delete key cache)
        ≡ (let (result, cache') = factory (delete key cache) in store key ttl now result cache'))
      × (key ≢ other → lookup other (delete key cache) ≡ lookup other cache)
unfolding get_or_set delete fresh
delete_refreshes key other ttl now factory cache = (
  rw (lookup-erase key key cache, eq_refl) refl,
  λ ne. ground (arith, lookup-erase key other cache, str_eq_iff key other),
)

-- `invalidate` with a prefix forgets exactly the keys that begin with it.
lookup-invalidate {ℓ} :
    {A : Type ℓ} (prefix key : String) (cache : TtlCache A)
    → lookup key (invalidate (some prefix) cache)
      ≡ (if starts_with key prefix then none else lookup key cache)
unfolding invalidate drop_prefix lookup
lookup-invalidate prefix key [] = ground arith
lookup-invalidate prefix key ((k, entry) ∷ cache) =
    ground (arith, lookup-invalidate prefix key cache, str_eq_iff k key)
