-- ===== src/Indexer.antt =====
-- The search for releases (app/services/indexer.py): the external JacRed first, the local one if it
-- fails. Settings are read when a search starts; the answers of the two services, `hashlib.sha1`
-- and Python's `float` are parameters.
pub mod Size
pub mod Items
pub mod Digest
pub mod Hashes
use seans.Prelude.{
  String, Bool, true, false, not, Option, none, some, List, [], ◌∷◌, ◌&&◌, ◌||◌, concat, chars,
  is_truthy, if◌then◌else◌, ℕ, ◌==◌,
}
use seans.Prelude.Options.{◌>>=◌, map_all, or_else}
use seans.Regex.{Text, is_space}
use seans.HttpClient.{Reply, failed, replied, Request, received, rstrip_slash}
use seans.Indexer.Items.{
  Externals, Release, ExternalItem, LocalItem, map_external_item, map_local_item,
}

pub record JacredSettings : Type 0 where
  pub jacred_url : String
  pub jacred_api_key : String
  pub jacred_external_url : String
  pub jacred_external_api_key : String

-- `data.get("results") or data.get("Results") or []`
pub record ExternalBody : Type 0 where
  pub results : Option (List ExternalItem)
  pub upper_results : Option (List ExternalItem)

abbrev pub or_list {ℓ} : {A : Type ℓ} → Option (List A) → List A → List A
or_list none other = other
or_list (some []) other = other
or_list (some (x ∷ xs)) other = x ∷ xs

abbrev pub external_items : ExternalBody → List ExternalItem
external_items data_ = or_list data_.results (or_list data_.upper_results [])

-- `bool(s.strip())`
abbrev pub has_word : Text → Bool
has_word [] = false
has_word (c ∷ cs) = not (is_space c) || has_word cs

unfoldable pub external_configured : JacredSettings → Bool
external_configured settings =
    is_truthy settings.jacred_external_url
    && has_word (chars settings.jacred_external_url)
    && is_truthy settings.jacred_external_api_key
    && has_word (chars settings.jacred_external_api_key)

abbrev pub external_request : JacredSettings → String → Request
external_request settings query = record {
  url = concat (rstrip_slash settings.jacred_external_url ∷ "/api/search" ∷ []);
  headers = ("Authorization", concat ("Bearer " ∷ settings.jacred_external_api_key ∷ [])) ∷ [];
  params = ("query", query) ∷ [];
}

-- `none` if an exception is raised: the service failed or answered 429 or another error, its body is
-- no JSON, or an item of it cannot be read.
unfoldable pub search_external :
    Externals → JacredSettings → (Request → Reply ExternalBody) → String → Option (List Release)
unfolding received
search_external lib settings get query = do
  data_ ← received (get (external_request settings query))
  map_all (map_external_item lib) (external_items data_)

abbrev pub local_request : JacredSettings → String → Request
local_request settings query = record {
  url = concat (rstrip_slash settings.jacred_url ∷ "/api/v2.0/indexers/all/results" ∷ []);
  headers = [];
  params = ("apikey", settings.jacred_api_key) ∷ ("Query", query) ∷ ("Category[]", "2000") ∷ [];
}

-- The body is the list of `data.get("Results", [])`.
unfoldable pub search_local :
    Externals → JacredSettings → (Request → Reply (List LocalItem)) → String → Option (List Release)
unfolding received
search_local lib settings get query = do
  results ← received (get (local_request settings query))
  map_all (map_local_item lib) results

-- `none` if the search raises, which is where the local service fails too.
unfoldable pub search_releases :
    Externals
    → JacredSettings
    → (Request → Reply ExternalBody)
    → (Request → Reply (List LocalItem))
    → String
    → Option (List Release)
unfolding external_configured search_external search_local
search_releases lib settings external local query =
    if external_configured settings
    then or_else (search_external lib settings external query)
        (search_local lib settings local query)
    else search_local lib settings local query
