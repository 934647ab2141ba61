-- ===== src/Media/Kept.antt =====
-- What no request for releases does to the rows of the table.
use seans.Prelude.{
  ℕ, suc, ◌≤◌, ◌≡◌, ◌∙◌, refl, sym, inl, inr, Bool, true, false, String, some, List, [], ◌∷◌, ◌&&◌,
  length, arith, ◌==◌, ==_self, str_eq, str_eq_iff, Bool-cases,
}
use seans.Table.{select, find}
use seans.Table.Upsert.{upsert-one, find-upsert, select-upsert}
use seans.Models.{Database, TorrentRelease}
use seans.Indexer.Items.{Release}
use seans.Media.{
  Jacred, is_release, new_release, set_release, upsert_release, upsert_releases, get_releases,
}
use seans.Media.Cached.{get_releases-Ends}

-- The unique constraint `uq_torrent_releases_media_hash`.
abbrev pub IsKeyed : List TorrentRelease → Type 0
IsKeyed rows = (m : ℕ) (h : String) → length (select (is_release m h) rows) ≤ 1

-- The row is still there, with its counts of peers and its time refreshed at most.
abbrev pub IsKept : TorrentRelease → List TorrentRelease → Type 0
IsKept r rows =
    (s : TorrentRelease) × (find (λ x. x.id == r.id) rows ≡ some s)
    × (record s { seeders = r.seeders; leechers = r.leechers; fetched_at = r.fetched_at } ≡ r)

upsert_release-IsKept :
    (id now m : ℕ) (rel : Release) (r : TorrentRelease) (rows : List TorrentRelease)
    → IsKept r rows
    → IsKept r (upsert_release id now m rel rows)
unfolding upsert_release
upsert_release-IsKept id now m rel r rows (s, found, same) =
    let (t, found', old) =
      find-upsert (is_release m rel.info_hash) (λ x. x.id == r.id) (set_release now rel)
        (new_release id now m rel) (λ _ k. k) (λ _ k. k) rows s found in
    elim old [ inl e ↦ (t, found', rw e same) | inr e ↦ (t, found', rw e same) ]

-- The tests of two keys pass the same rows, or none in common.
same_key : (m n : ℕ) (h k : String) → (m == n && str_eq h k) ≡ true → (m ≡ n) × (h ≡ k)
same_key m n h k e = (ground arith, (str_eq_iff h k).0 (ground arith))

other_key :
    (m n : ℕ) (h k : String) (row : TorrentRelease)
    → (m == n && str_eq h k) ≡ false
    → is_release m h row ≡ true
    → is_release n k row ≡ false
other_key m n h k row e fits = elim (Bool-cases (is_release n k row)) [
  | inr apart ↦ apart
  | inl both ↦
      let (to_m, to_h) = same_key row.media_item_id m row.info_hash h fits in
      let (to_n, to_k) = same_key row.media_item_id n row.info_hash k both in
      let same = (str_eq_iff h k).1 (sym to_h ∙ to_k) in absurd (ground arith)
]

upsert_release-IsKeyed :
    (id now m : ℕ) (rel : Release) (rows : List TorrentRelease)
    → IsKeyed rows
    → IsKeyed (upsert_release id now m rel rows)
unfolding upsert_release
upsert_release-IsKeyed id now m rel rows keyed n k =
    let key = is_release m rel.info_hash in
    let row = new_release id now m rel in
    let hash = (str_eq_iff rel.info_hash rel.info_hash).1 refl in
    let fits : key row ≡ true = ground (arith, ==_self m) in
    elim (Bool-cases (m == n && str_eq rel.info_hash k)) [
      | inl same ↦
          let (to_n, to_k) = same_key m n rel.info_hash k same in
          let one =
            upsert-one key (set_release now rel) row fits (λ _ k. k) rows (keyed m rel.info_hash) in
          rw (sym to_n, sym to_k) (omega arith)
      | inr other ↦
          rw
            (select-upsert key (is_release n k) (set_release now rel) row
              (λ row. other_key m n rel.info_hash k row other) (λ _ k. k) fits rows)
            (keyed n k)
    ]

-- The loop keeps what each of its steps keeps.
upsert_releases-keeps {ℓ} :
    (P : List TorrentRelease → Type ℓ) (ids : ℕ → ℕ) (now m : ℕ) (rels : List Release)
    (loaded rows : List TorrentRelease)
    → ((id : ℕ) (rel : Release) (rows : List TorrentRelease)
        → P rows
        → P (upsert_release id now m rel rows))
    → P rows
    → P (upsert_releases ids now m rels loaded rows).1
unfolding upsert_releases
upsert_releases-keeps P ids now m [] loaded rows step h = h
upsert_releases-keeps P ids now m (rel ∷ rels) loaded rows step h =
    upsert_releases-keeps P (λ n. ids (suc n)) now m rels _ _ step (step (ids 0) rel rows h)

-- However a request for releases ends: if no two rows had the same medium and info hash, no two
-- have afterwards; and a row that was in the table is still there under its id, with the same
-- medium, source, tracker, title, info hash, size, quality, voiceover and magnet link.
pub get_releases_keeps :
    (jacred : Jacred) (ids : ℕ → ℕ) (now media_item_id : ℕ) (refresh : Bool) (db : Database)
    (r : TorrentRelease)
    → IsKeyed db.torrent_releases
    → IsKept r db.torrent_releases
    → let db' = (get_releases jacred ids now media_item_id refresh db).1 in
      IsKeyed db'.torrent_releases × IsKept r db'.torrent_releases
get_releases_keeps jacred ids now media_item_id refresh db r keyed kept =
    elim (get_releases-Ends jacred ids now media_item_id refresh db) [
      | inl (same, _) ↦ rw same (keyed, kept)
      | inr (rels, out) ↦ rw out (
        upsert_releases-keeps IsKeyed ids now media_item_id rels [] _
            (λ id. upsert_release-IsKeyed id now media_item_id) keyed,
        upsert_releases-keeps (IsKept r) ids now media_item_id rels [] _
            (λ id rel rows. upsert_release-IsKept id now media_item_id rel r rows) kept,
      )
    ]
