-- ===== src/Media.antt =====
-- app/routers/media.py, apart from the search for media, which is in Kinopoisk: a medium, and its
-- releases, which the table keeps for six hours. The answers of JacRed are parameters. (A path that
-- is no UUID is not modelled: a medium's id is a number.)
pub mod Detail
pub mod Cached
pub mod Kept
use seans.Prelude.{
  ℕ, zero, suc, ◌+◌, String, Bool, get_or, map, chars, text_of, rstrip_chars, lstrip_chars, Option,
  none, some, List, [], ◌∷◌, ◌++◌, ◌&&◌, concat, ltb, ◌==◌, str_eq, if◌then◌else◌,
}
use seans.Prelude.Decimal.{str}
use seans.Prelude.Int.{ℤ, pos, negsuc}
use seans.Http.{Action, http, internal_server_error, or_raise, pure, gets, commit, ◌>>=◌, ◌>>◌}
use seans.Table.{select, find, upsert}
use seans.Models.{Database, MediaItem, TorrentRelease}
use seans.Config.{hours}
use seans.HttpClient.{Reply, Request}
use seans.Indexer.{JacredSettings, ExternalBody, search_releases}
use seans.Regex.{is_space}
use seans.Indexer.Items.{Externals, Release, LocalItem}

abbrev pub is_medium : ℕ → MediaItem → Bool
is_medium media_item_id row = row.id == media_item_id

unfoldable pub get_media : ℕ → Action Database MediaItem
get_media media_item_id = do
  item ← gets (λ db. find (is_medium media_item_id) db.media_items)
  or_raise item (http 404 "Media item not found")

-- The indexer's world: its settings, the two services, and the functions it calls.
pub record Jacred : Type 0 where
  pub lib : Externals
  pub settings : JacredSettings
  pub external : Request → Reply ExternalBody
  pub local : Request → Reply (List LocalItem)

-- `index_elements=["media_item_id", "info_hash"]`
abbrev pub is_release : ℕ → String → TorrentRelease → Bool
is_release media_item_id info_hash row =
    row.media_item_id == media_item_id && str_eq row.info_hash info_hash

-- `.values(…)`
abbrev pub new_release : ℕ → ℕ → ℕ → Release → TorrentRelease
new_release id now media_item_id rel = record {
  id = id;
  media_item_id = media_item_id;
  source = rel.source;
  tracker = rel.tracker;
  title = rel.title;
  info_hash = rel.info_hash;
  size_bytes = rel.size_bytes;
  seeders = rel.seeders;
  leechers = rel.leechers;
  quality = rel.quality;
  voiceover = rel.voiceover;
  magnet = rel.magnet;
  fetched_at = now;
}

-- `set_={…}`
abbrev pub set_release : ℕ → Release → TorrentRelease → TorrentRelease
set_release now rel row = record row {
  seeders = rel.seeders;
  leechers = rel.leechers;
  fetched_at = now;
}

-- `.where(TorrentRelease.fetched_at > cutoff)`, with `cutoff = now - timedelta(hours=6)`.
abbrev pub is_cached : ℕ → ℕ → TorrentRelease → Bool
is_cached now media_item_id row =
    row.media_item_id == media_item_id && ltb now (row.fetched_at + hours 6)

unfoldable pub upsert_release : ℕ → ℕ → ℕ → Release → List TorrentRelease → List TorrentRelease
upsert_release id now media_item_id rel =
    upsert (is_release media_item_id rel.info_hash) (set_release now rel)
      (new_release id now media_item_id rel)

-- The object of the row that `RETURNING` gives: the session keeps the one that it has of a row, and
-- does not refresh it.
abbrev pub object_of : List TorrentRelease → TorrentRelease → TorrentRelease
object_of loaded row = get_or (find (λ r. r.id == row.id) loaded) row

-- `db_releases.append(row.scalar_one())`
abbrev pub append_object : List TorrentRelease → Option TorrentRelease → List TorrentRelease
append_object loaded none = loaded
append_object loaded (some row) = loaded ++ object_of loaded row ∷ []

-- The loop over the releases, from the objects so far and the table; `ids` are the `uuid4()` of new
-- rows.
unfoldable pub upsert_releases :
    (ℕ → ℕ)
    → ℕ
    → ℕ
    → List Release
    → List TorrentRelease
    → List TorrentRelease
    → List TorrentRelease × List TorrentRelease
unfolding upsert_release
upsert_releases ids now media_item_id [] loaded rows = (loaded, rows)
upsert_releases ids now media_item_id (rel ∷ rels) loaded rows =
    let rows' = upsert_release (ids 0) now media_item_id rel rows in
    let row = find (is_release media_item_id rel.info_hash) rows' in
    upsert_releases (λ n. ids (suc n)) now media_item_id rels (append_object loaded row) rows'

-- `media_item.year or ''`
abbrev pub year_text : Option ℤ → String
year_text none = ""
year_text (some (pos zero)) = ""
year_text (some (pos (suc n))) = str (pos (suc n))
year_text (some (negsuc n)) = str (negsuc n)

-- `text.strip()`
abbrev pub strip : String → String
strip s = text_of (rstrip_chars is_space (lstrip_chars is_space (chars s)))

abbrev pub release_query : MediaItem → String
release_query item = strip (concat (item.title ∷ " " ∷ year_text item.year ∷ []))

pub record TorrentReleaseResponse : Type 0 where
  pub id : ℕ
  pub tracker : String
  pub title : String
  pub size_bytes : ℤ
  pub seeders : ℤ
  pub leechers : ℤ
  pub quality : Option String
  pub voiceover : Option String
  pub magnet : Option String

-- `TorrentReleaseResponse.model_validate(row)`
abbrev pub release_response : TorrentRelease → TorrentReleaseResponse
release_response row = record {
  id = row.id;
  tracker = row.tracker;
  title = row.title;
  size_bytes = row.size_bytes;
  seeders = row.seeders;
  leechers = row.leechers;
  quality = row.quality;
  voiceover = row.voiceover;
  magnet = row.magnet;
}

-- The part of `get_releases` below `# Fetch from indexer`.
unfoldable pub fetch_releases :
    Jacred → (ℕ → ℕ) → ℕ → ℕ → MediaItem → Action Database (List TorrentReleaseResponse)
unfolding search_releases upsert_releases str
fetch_releases jacred ids now media_item_id media_item = do
  releases ←
      or_raise
        (search_releases jacred.lib jacred.settings jacred.external jacred.local
          (release_query media_item))
        internal_server_error
  done ← gets (λ db. upsert_releases ids now media_item_id releases [] db.torrent_releases)
  commit (λ db. record db { torrent_releases = done.1 })
  pure (map release_response done.0)

-- `if rows: return …`
abbrev pub unless_cached :
    List TorrentRelease
    → Action Database (List TorrentReleaseResponse)
    → Action Database (List TorrentReleaseResponse)
unless_cached [] fetch = fetch
unless_cached (row ∷ rows) fetch = pure (map release_response (row ∷ rows))

-- The rows that the table still has fresh, if they may be used.
abbrev pub cached_rows : ℕ → Bool → ℕ → Database → List TorrentRelease
cached_rows now refresh media_item_id db =
    if refresh then [] else select (is_cached now media_item_id) db.torrent_releases

unfoldable pub get_releases :
    Jacred → (ℕ → ℕ) → ℕ → ℕ → Bool → Action Database (List TorrentReleaseResponse)
unfolding fetch_releases
get_releases jacred ids now media_item_id refresh = do
  found ← gets (λ db. find (is_medium media_item_id) db.media_items)
  media_item ← or_raise found (http 404 "Media item not found")
  rows ← gets (cached_rows now refresh media_item_id)
  unless_cached rows (fetch_releases jacred ids now media_item_id media_item)
