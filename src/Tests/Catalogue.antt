-- ===== src/Tests/Catalogue.antt =====
-- Releases, media, and the clients of Sonarr and Radarr.
use seans.Prelude.{◌==◌}
use seans.Prelude.Int.{ℤ}
use seans.Prelude.{
  ℕ, ◌≡◌, refl, inr, String, true, false, Option, none, some, [], ◌∷◌, map, chars, arith, ◌+◌, ◌/◌,
  All,
}
use seans.Prelude.Int.{pos}
use seans.Prelude.Dict.{string_eq}
use seans.Http.{ok}
use seans.Table.{select, find, exists, upsert, update_where}
use seans.Models.{Database, MediaItem}
use seans.Regex.{Text, literal, alike, is_space, splits, each, runs, search}
use seans.Quality.{
  parse_release_info, parse_quality, parse_source, parse_voiceover, first_match,
  resolution_patterns, source_patterns, voiceover_patterns, ReleaseInfo,
}
use seans.Quality.Refinement.{IsFirst, parse_release_info-IsFirst}
use seans.HttpClient.{failed, replied, received}
use seans.Indexer.{JacredSettings, search_releases, search_local, external_configured}
use seans.Indexer.Size.{parse_size_name, size_groups, unit_size}
use seans.Indexer.Items.{
  Externals, LocalItem, SizeField, local_release, map_local_item, info_hash_from_magnet, btih,
  btih_here,
}
use seans.Indexer.Digest.{IsInfoHash}
use seans.Indexer.Hashes.{IsIdentified, search_releases-IsIdentified}
use seans.Media.{
  Jacred, new_release, TorrentReleaseResponse, get_releases, fetch_releases, upsert_releases,
  upsert_release, release_response, is_cached,
}
use seans.Media.Cached.{refreshed_releases_cached}
use seans.Media.Kept.{IsKeyed, IsKept, get_releases_keeps}
use seans.Kinopoisk.{search_media, upsert_media_items, upsert_media, resolve_media}
use seans.Kinopoisk.Films.{Kinopoisk, search_kinopoisk, search_mock}
use seans.Kinopoisk.Kept
use seans.Kinopoisk.Kept.{search_media_keeps}
use seans.Tmdb.{resolve_tmdb_id, query_candidates, first_result}
use seans.Prelude.Decimal.{str}
use seans.Tests.Sample.{release, medium, with_tasks}

abbrev title : String
title = "Dune (2021) web-dlrip [720p, 2160P] HDrezka  Studio"

abbrev dune : ReleaseInfo
dune = record { quality = some "2160p"; source = some "WEB-DL"; voiceover = some "HDrezka Studio" }

release_info_read : parse_release_info title ≡ dune
unfolding parse_release_info parse_quality parse_source parse_voiceover first_match search splits
    each runs literal alike is_space
release_info_read = refl

parse_release_info-IsFirst_example :
    IsFirst resolution_patterns (chars title) (parse_release_info title).quality
    × IsFirst source_patterns (chars title) (parse_release_info title).source
    × IsFirst voiceover_patterns (chars title) (parse_release_info title).voiceover
parse_release_info-IsFirst_example = parse_release_info-IsFirst title

-- A size of 1.5 GiB, where the numeral 1.5 times a unit is half as much again.
abbrev halves : Text → ℕ → Option ℕ
halves number unit = some (unit + unit / 2)

parse_size_name_gb : parse_size_name halves (some " 1,5 gb") ≡ some 1610612736
unfolding parse_size_name size_groups unit_size splits each runs alike is_space
parse_size_name_gb = refl

-- "5 IB" passes the pattern, and is no key of the table of units.
parse_size_name_ib : parse_size_name halves (some "5 IB") ≡ none
unfolding parse_size_name size_groups unit_size splits each runs alike is_space
parse_size_name_ib = refl

abbrev digest : String
digest = "da39a3ee5e6b4b0d3255bfef95601890afd80709"

abbrev lib : Externals
lib = record { sha1 = λ s. digest; scaled = halves }

lib-IsInfoHash : (s : String) → IsInfoHash (lib.sha1 s)
lib-IsInfoHash s = inr (ground arith)

abbrev jacred_settings : JacredSettings
jacred_settings = record {
  jacred_url = "http://jacred/";
  jacred_api_key = "";
  jacred_external_url = "https://search";
  jacred_external_api_key = " ";
}

abbrev item : LocalItem
item = record {
  title = some (some "Film 720p");
  magnet_uri = some "magnet:?xt=urn:btih:ABCDEF0123456789abcdef0123456789ABCDEF01&dn=Film";
  link = none;
  size = some (SizeField.number (pos 400));
  tracker = some "t";
  guid = none;
  seeders = some (pos 2);
  peers = some (pos 5);
}

abbrev jacred : Jacred
jacred = record {
  lib = lib;
  settings = jacred_settings;
  external = λ _. failed;
  local = λ _. replied 200 (some (item ∷ []));
}

search_releases-IsIdentified_example :
    All IsIdentified (local_release lib item "Film 720p" (pos 400) ∷ [])
unfolding search_releases search_local map_local_item received external_configured is_space
search_releases-IsIdentified_example =
    search_releases-IsIdentified lib jacred_settings jacred.external jacred.local "Film"
      (local_release lib item "Film 720p" (pos 400) ∷ []) lib-IsInfoHash refl

info_hash_lower :
    (local_release lib item "Film 720p" (pos 400)).info_hash
    ≡ "abcdef0123456789abcdef0123456789abcdef01"
unfolding info_hash_from_magnet btih btih_here splits literal
info_hash_lower = refl

-- The medium 5 has the release 7 in the table, found with another hash.
abbrev catalogue : Database
catalogue = with_tasks []

abbrev found : TorrentReleaseResponse
found = release_response (new_release 8 1000 5 (local_release lib item "Film 720p" (pos 400)))

refreshed_releases_cached_example :
    let db' = (get_releases jacred (λ _. 8) 1000 5 true catalogue).1 in
    get_releases jacred (λ _. 9) 2000 5 false db'
    ≡ (ok (map release_response (select (is_cached 2000 5) db'.torrent_releases)), db')
unfolding get_releases fetch_releases search_releases search_local map_local_item received
    external_configured is_space upsert_releases upsert_release upsert select find exists
    update_where literal
refreshed_releases_cached_example =
    refreshed_releases_cached jacred jacred (λ _. 8) (λ _. 9) 1000 2000 5 catalogue found [] refl
      (omega arith)

catalogue-IsKeyed : IsKeyed catalogue.torrent_releases
unfolding select
catalogue-IsKeyed m h = ground arith

catalogue-IsKept : IsKept release catalogue.torrent_releases
unfolding find
catalogue-IsKept = (release, refl, refl)

get_releases_keeps_example :
    let db' = (get_releases jacred (λ _. 8) 1000 5 true catalogue).1 in
    IsKeyed db'.torrent_releases × IsKept release db'.torrent_releases
get_releases_keeps_example =
    get_releases_keeps jacred (λ _. 8) 1000 5 true catalogue release catalogue-IsKeyed
      catalogue-IsKept

-- The search for "Inter" without a token, in a catalogue that has Interstellar under the id 6.
abbrev kinopoisk : Kinopoisk
kinopoisk = record {
  kp_api_token = "";
  tmdb_api_token = "key";
  films = λ _. failed;
  tmdb = λ _. replied 200 (some (some (pos 157336) ∷ []));
  lower = λ s. s;
  tenths = λ s. none;
  json = λ fields. fields.title;
}

abbrev interstellar : MediaItem
interstellar = record medium { id = 6; kp_id = some (pos 258687); title = "Interstellar" }

abbrev films : Database
films = record catalogue { media_items = medium ∷ interstellar ∷ [] }

-- The medium that the search finds, with a TMDB id that is not the one that TMDB answers.
abbrev known : MediaItem
known = record interstellar { tmdb_id = some (pos 9) }

abbrev known_films : Database
known_films = record catalogue { media_items = medium ∷ known ∷ [] }

films-IsKeyed : Kept.IsKeyed known_films.media_items
unfolding select
films-IsKeyed k = ground arith

abbrev searched : Database
searched = (search_media kinopoisk (λ n. 8 + n) 1000 "Inter" known_films).1

search_media_keeps_example :
    Kept.IsKeyed searched.media_items
    × (s : MediaItem) × (find (λ x. x.id == 6) searched.media_items ≡ some s)
    × (s.kp_id ≡ some (pos 258687))
    × (s.kp_type ≡ known.kp_type)
    × ((k : ℤ) → some (pos 9) ≡ some k → s.tmdb_id ≡ some k)
unfolding find
search_media_keeps_example =
    search_media_keeps kinopoisk (λ n. 8 + n) 1000 "Inter" known_films known films-IsKeyed refl
      (λ same. absurd (ground arith), (λ same. refl, tt)) (λ n. ground arith)

search_media_resolves :
    map (λ m. m.tmdb_id) (search_media kinopoisk (λ n. 8 + n) 1000 "Inter" films).1.media_items
    ≡ none ∷ some (pos 157336) ∷ []
unfolding search_media search_kinopoisk search_mock upsert_media_items upsert_media resolve_media
    resolve_tmdb_id query_candidates first_result received str search splits literal upsert select
    find exists update_where
search_media_resolves = refl
