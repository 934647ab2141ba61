-- ===== src/Media/Cached.antt =====
-- The table of releases as a cache: what a fetch leaves in it, the next request within six hours
-- reads.
use seans.Prelude.{
  ℕ, suc, ◌+◌, ◌<◌, ◌≡◌, ◌∙◌, sym, ap, refl, Bool, true, false, some, List, [], ◌∷◌, map, arith,
  ◌⊎◌, inl, inr, if◌then◌else◌, ==_self, str_eq_iff, Option-cases,
}
use seans.Http.{Result, HttpException, ok, raise, http, internal_server_error}
use seans.Table.{select, find, exists}
use seans.Table.Laws.{find-exists, select-exists}
use seans.Table.Upsert.{upsert-found}
use seans.Models.{Database, MediaItem, TorrentRelease}
use seans.Config.{hours}
use seans.Indexer.{search_releases}
use seans.Indexer.Items.{Release}
use seans.Media.{
  Jacred, TorrentReleaseResponse, is_medium, is_release, is_cached, new_release, set_release,
  upsert_release, upsert_releases, release_query, release_response, unless_cached, fetch_releases,
  get_releases,
}

upsert_release-exists :
    (id now now' media_item_id : ℕ) (rel : Release) (rows : List TorrentRelease)
    → now' < now + hours 6
    → exists (is_cached now' media_item_id) (upsert_release id now media_item_id rel rows) ≡ true
unfolding upsert_release
upsert_release-exists id now now' media_item_id rel rows soon =
    let key = is_release media_item_id rel.info_hash in
    let fresh = is_cached now' media_item_id in
    let hash = (str_eq_iff rel.info_hash rel.info_hash).1 refl in
    let (row, found, fits) =
      upsert-found key (set_release now rel) (new_release id now media_item_id rel)
        (ground (arith, ==_self media_item_id)) (λ _ k. k) (λ row. fresh row ≡ true) rows
        (ground (arith, ==_self media_item_id)) (λ row k. ground arith) in
    find-exists fresh key _ row found fits

upsert_releases-exists :
    (ids : ℕ → ℕ) (now now' media_item_id : ℕ) (rel : Release) (rels : List Release)
    (loaded rows : List TorrentRelease)
    → now' < now + hours 6
    → exists
        (is_cached now' media_item_id)
        (upsert_releases ids now media_item_id (rel ∷ rels) loaded rows).1
      ≡ true
unfolding upsert_releases
upsert_releases-exists ids now now' media_item_id rel [] loaded rows soon =
    upsert_release-exists (ids 0) now now' media_item_id rel rows soon
upsert_releases-exists ids now now' media_item_id rel (next ∷ rels) loaded rows soon =
    upsert_releases-exists (λ n. ids (suc n)) now now' media_item_id next rels _ _ soon

-- The two ways in which a request ends: with the table as it was, or with each found release
-- upserted.
abbrev Ends :
    (ids : ℕ → ℕ) (now media_item_id : ℕ) (refresh : Bool) (db : Database)
    → Result (List TorrentReleaseResponse) × Database
    → Type 0
Ends ids now media_item_id refresh db out =
    ((out.1 ≡ db) × (refresh ≡ true → (e : HttpException) × (out.0 ≡ raise e)))
    ⊎ ((rels : List Release) × (out ≡ (
          let done = upsert_releases ids now media_item_id rels [] db.torrent_releases in
          (ok (map release_response done.0), record db { torrent_releases = done.1 }))))

fetch_releases-Ends :
    (jacred : Jacred) (ids : ℕ → ℕ) (now media_item_id : ℕ) (refresh : Bool)
    (media_item : MediaItem) (db : Database)
    → Ends ids now media_item_id refresh db
        (fetch_releases jacred ids now media_item_id media_item db)
unfolding fetch_releases
fetch_releases-Ends jacred ids now media_item_id refresh media_item db =
    elim (Option-cases (
      search_releases jacred.lib jacred.settings jacred.external jacred.local
        (release_query media_item))) [
          | inl e ↦ rw e (inl (refl, λ _. (internal_server_error, refl)))
          | inr (rels, e) ↦ rw e (inr (rels, refl))
        ]

pub get_releases-Ends :
    (jacred : Jacred) (ids : ℕ → ℕ) (now media_item_id : ℕ) (refresh : Bool) (db : Database)
    → Ends ids now media_item_id refresh db (get_releases jacred ids now media_item_id refresh db)
unfolding get_releases
get_releases-Ends jacred ids now media_item_id refresh db =
    elim (Option-cases (find (is_medium media_item_id) db.media_items)) [
      | inl e ↦ rw e (inl (refl, λ _. (http 404 "Media item not found", refl)))
      | inr (media_item, e) ↦
          rw e (
            from_rows media_item refresh (select (is_cached now media_item_id) db.torrent_releases))
    ]
  where
    from_rows :
        (media_item : MediaItem) (refresh : Bool) (rows : List TorrentRelease)
        → Ends ids now media_item_id refresh db (
            unless_cached
              (if refresh then [] else rows)
              (fetch_releases jacred ids now media_item_id media_item)
              db)
    from_rows media_item true rows =
        fetch_releases-Ends jacred ids now media_item_id true media_item db
    from_rows media_item false [] =
        fetch_releases-Ends jacred ids now media_item_id false media_item db
    from_rows media_item false (row ∷ rows) = inl (refl, λ e. absurd (ground arith))

-- A request whose rows are fresh.
get_releases-cached :
    (jacred : Jacred) (ids : ℕ → ℕ) (now media_item_id : ℕ) (db : Database) (media_item : MediaItem)
    → find (is_medium media_item_id) db.media_items ≡ some media_item
    → exists (is_cached now media_item_id) db.torrent_releases ≡ true
    → get_releases jacred ids now media_item_id false db
      ≡ (ok (map release_response (select (is_cached now media_item_id) db.torrent_releases)), db)
unfolding get_releases
get_releases-cached jacred ids now media_item_id db media_item found there =
    let (row, rows, some_rows) =
      select-exists (is_cached now media_item_id) db.torrent_releases there in
    rw (found, some_rows) refl

medium_exists :
    (jacred : Jacred) (ids : ℕ → ℕ) (now media_item_id : ℕ) (refresh : Bool) (db : Database)
    (rs : List TorrentReleaseResponse)
    → (get_releases jacred ids now media_item_id refresh db).0 ≡ ok rs
    → (media_item : MediaItem) × (find (is_medium media_item_id) db.media_items ≡ some media_item)
unfolding get_releases
medium_exists jacred ids now media_item_id refresh db rs e =
    elim (Option-cases (find (is_medium media_item_id) db.media_items)) [
      | inl absent ↦ let e' = rw absent at e in absurd (ground arith)
      | inr there ↦ there
    ]

-- After a refresh at the time `now` that answered with some release, a request without refresh less
-- than six hours later gives the medium's rows that are still fresh and leaves the database alone,
-- whatever the two services would answer by then.
pub refreshed_releases_cached :
    (jacred jacred' : Jacred) (ids ids' : ℕ → ℕ) (now now' media_item_id : ℕ) (db : Database)
    (r : TorrentReleaseResponse) (rs : List TorrentReleaseResponse)
    → (get_releases jacred ids now media_item_id true db).0 ≡ ok (r ∷ rs)
    → now' < now + hours 6
    → let db' = (get_releases jacred ids now media_item_id true db).1 in
      get_releases jacred' ids' now' media_item_id false db' ≡ (
        ok (map release_response (select (is_cached now' media_item_id) db'.torrent_releases)),
        db',
      )
unfolding upsert_releases
refreshed_releases_cached jacred jacred' ids ids' now now' media_item_id db r rs e soon =
    elim (get_releases-Ends jacred ids now media_item_id true db) [
      | inl (_, failed) ↦ let (_, raised) = failed refl in absurd (ground arith)
      | inr ([], out) ↦ let e' = sym (ap (λ o. o.0) out) ∙ e in absurd (ground arith)
      | inr (rel ∷ rels, out) ↦
          let (media_item, found) = medium_exists jacred ids now media_item_id true db (r ∷ rs) e in
          rw out (
            get_releases-cached jacred' ids' now' media_item_id _ media_item found (
              upsert_releases-exists ids now now' media_item_id rel rels [] db.torrent_releases
                soon))
    ]
