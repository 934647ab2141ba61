-- ===== src/Config.antt =====
-- The fields of `Settings` in app/config.py that the handlers of tasks and accounts read, the times
-- that they make of them, and the settings that come from the old names of the environment. A time
-- counts microseconds, as Python's `datetime` does.
pub mod Defaults
use text.Mathlib.Text.{starts_with}
use seans.Prelude.{
  ℕ, ◌*◌, String, Option, none, some, List, [], ◌∷◌, ◌||◌, not, is_truthy, if◌then◌else◌,
}
use seans.Prelude.Dict.{Dict, lookup, insert, string_eq}

pub record Settings : Type 0 where
  pub worker_reg_secret : String
  pub lease_minutes : ℕ
  pub jwt_ttl_days : ℕ

-- `timedelta(seconds=n)`
abbrev pub seconds : ℕ → ℕ
seconds n = n * 1000000

-- `timedelta(minutes=n)`
abbrev pub minutes : ℕ → ℕ
minutes n = seconds (n * 60)

-- `timedelta(hours=n)`
abbrev pub hours : ℕ → ℕ
hours n = minutes (n * 60)

-- `{k.lower(): v for k, v in os.environ.items()}`, from the entries so far; `lower` is `str.lower`.
unfoldable pub lowered :
    (String → String) → Dict String String → List (String × String) → Dict String String
unfolding insert
lowered lower entries [] = entries
lowered lower entries ((k, v) ∷ environ) = lowered lower (insert (lower k) v entries) environ

-- `if value: return value`
abbrev pub if_truthy : Option String → Option String → Option String
if_truthy none later = later
if_truthy (some value) later = if is_truthy value then some value else later

-- The loop of `_env_lookup` over the names.
unfoldable pub lookup_names : (String → String) → Dict String String → List String → Option String
unfolding lookup
lookup_names lower entries [] = none
lookup_names lower entries (name ∷ names) =
    if_truthy (lookup (lower name) entries) (lookup_names lower entries names)

unfoldable pub env_lookup : (String → String) → List (String × String) → List String → Option String
unfolding lowered lookup_names
env_lookup lower environ names = lookup_names lower (lowered lower [] environ) names

-- The two settings that the validator may replace.
pub record JacredSource : Type 0 where
  pub jacred_url : String
  pub jacred_api_key : String

-- `if jackett_url and (…): self.JACRED_URL = jackett_url`
abbrev pub map_url : Option String → String → String
map_url none url = url
map_url (some jackett_url) url =
    if not (is_truthy url) || starts_with url "http://localhost" then jackett_url else url

abbrev pub map_key : Option String → String → String
map_key none key = key
map_key (some jackett_key) key = if is_truthy key then key else jackett_key

-- `_map_legacy_jackett_env`
unfoldable pub map_legacy_jackett_env :
    (String → String) → List (String × String) → JacredSource → JacredSource
unfolding env_lookup
map_legacy_jackett_env lower environ settings = record {
  jacred_url = map_url (env_lookup lower environ ("jackett_url" ∷ [])) settings.jacred_url;
  jacred_api_key =
      map_key (env_lookup lower environ ("jackett_api_key" ∷ [])) settings.jacred_api_key;
}
