-- ===== src/Indexer/Hashes.antt =====
-- What every release of a search has: an identifying hash, and a link that is a magnet link.
use text.Mathlib.Text.{starts_with}
use seans.Prelude.{
  ℕ, ◌≡◌, refl, sym, String, Bool, true, false, Option, none, some, List, [], ◌∷◌, arith, All,
  or_none, or_text, if◌then◌else◌,
}
use seans.Prelude.Int.{ℤ}
use seans.Prelude.Options.{or_else, or_else-some, >>=-some, map_all-All}
use seans.HttpClient.{Reply, Request, received}
use seans.Indexer.Items.{
  Externals, Release, external_size, external_release, local_release, local_title, ExternalItem,
  LocalItem, map_external_item, map_local_item, local_size,
}
use seans.Indexer.{
  JacredSettings, ExternalBody, external_configured, external_request, external_items,
  local_request, search_external, search_local, search_releases,
}
use seans.Indexer.Digest.{IsInfoHash, info_hash_from_magnet-IsInfoHash}

abbrev pub IsMagnetLink : Option String → Type 0
IsMagnetLink none = Unit
IsMagnetLink (some magnet) = starts_with magnet "magnet:" ≡ true

abbrev pub IsIdentified : Release → Type 0
IsIdentified r = IsInfoHash r.info_hash × IsMagnetLink r.magnet

or_none-IsMagnetLink :
    (s : String) (b : Bool)
    → starts_with s "magnet:" ≡ b
    → IsMagnetLink (or_none (if b then s else ""))
or_none-IsMagnetLink s false e = tt
or_none-IsMagnetLink String.[] true e = tt
or_none-IsMagnetLink (String.◌∷◌ c s) true e = e

if_magnet-IsMagnetLink :
    (s : String) (b : Bool)
    → starts_with s "magnet:" ≡ b
    → IsMagnetLink (if b then some s else none)
if_magnet-IsMagnetLink s false e = tt
if_magnet-IsMagnetLink s true e = e

external_release-IsIdentified :
    (lib : Externals) (item : ExternalItem) (n : ℕ)
    → ((s : String) → IsInfoHash (lib.sha1 s))
    → IsIdentified (external_release lib item n)
external_release-IsIdentified lib item n digests = (
  info_hash_from_magnet-IsInfoHash lib _ _ digests,
  or_none-IsMagnetLink (or_text (item.magnet ∷ item.magnet_uri ∷ []) "") _ refl,
)

local_release-IsIdentified :
    (lib : Externals) (item : LocalItem) (title : String) (n : ℤ)
    → ((s : String) → IsInfoHash (lib.sha1 s))
    → IsIdentified (local_release lib item title n)
local_release-IsIdentified lib item title n digests = (
  info_hash_from_magnet-IsInfoHash lib _ _ digests,
  if_magnet-IsMagnetLink (or_text (item.magnet_uri ∷ item.link ∷ []) "") _ refl,
)

search_external-IsIdentified :
    (lib : Externals) (settings : JacredSettings) (get : Request → Reply ExternalBody)
    (query : String) (rs : List Release)
    → ((s : String) → IsInfoHash (lib.sha1 s))
    → search_external lib settings get query ≡ some rs
    → All IsIdentified rs
unfolding search_external map_external_item
search_external-IsIdentified lib settings get query rs digests e =
    let (body, _, mapped) = >>=-some (received (get (external_request settings query))) _ rs e in
    map_all-All IsIdentified (map_external_item lib) (external_items body) rs
      (λ item r read.
        let (n, _, done) = >>=-some (external_size lib item) _ r read in
        let same : external_release lib item n ≡ r = ground arith in
        rw (sym same) (external_release-IsIdentified lib item n digests))
      mapped

search_local-IsIdentified :
    (lib : Externals) (settings : JacredSettings) (get : Request → Reply (List LocalItem))
    (query : String) (rs : List Release)
    → ((s : String) → IsInfoHash (lib.sha1 s))
    → search_local lib settings get query ≡ some rs
    → All IsIdentified rs
unfolding search_local map_local_item
search_local-IsIdentified lib settings get query rs digests e =
    let (items, _, mapped) = >>=-some (received (get (local_request settings query))) _ rs e in
    map_all-All IsIdentified (map_local_item lib) items rs
      (λ item r read.
        let (title, _, sized) = >>=-some (local_title item) _ r read in
        let (n, _, done) = >>=-some (local_size lib item.size) _ r sized in
        let same : local_release lib item title n ≡ r = ground arith in
        rw (sym same) (local_release-IsIdentified lib item title n digests))
      mapped

-- Of a search that returns: each release has an info hash that is empty or forty hexadecimal digits in
-- lower case, and a link that is absent or a magnet link, whichever service it came from and whatever
-- that service sent. (SHA-1 digests are written in forty such digits.)
pub search_releases-IsIdentified :
    (lib : Externals) (settings : JacredSettings) (external : Request → Reply ExternalBody)
    (local : Request → Reply (List LocalItem)) (query : String) (rs : List Release)
    → ((s : String) → IsInfoHash (lib.sha1 s))
    → search_releases lib settings external local query ≡ some rs
    → All IsIdentified rs
unfolding search_releases
search_releases-IsIdentified lib settings external local query rs digests e =
    from_configured (external_configured settings) e
  where
    from_configured :
        (b : Bool)
        → (if b
            then or_else
                (search_external lib settings external query)
                (search_local lib settings local query)
            else search_local lib settings local query)
          ≡ some rs
        → All IsIdentified rs
    from_configured true e =
        or_else-some (All IsIdentified) _ _ rs
          (λ found. search_external-IsIdentified lib settings external query found digests)
          (search_local-IsIdentified lib settings local query rs digests) e
    from_configured false e = search_local-IsIdentified lib settings local query rs digests e
