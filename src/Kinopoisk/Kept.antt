-- ===== src/Kinopoisk/Kept.antt =====
-- What a search does to the media that the table has.
use seans.Prelude.{
  ℕ, suc, ◌≤◌, ◌≡◌, ◌≢◌, refl, sym, inl, inr, true, false, String, Option, none, some, List, [],
  ◌∷◌, length, arith, All, All-weaken, ◌==◌, Bool-cases, Option-cases,
}
use seans.Prelude.Int.{ℤ, eq_ℤ, eq_of_parts}
use seans.Table.{select, find, upsert}
use seans.Table.Laws.{
  select-append_miss, length-select-update_where, exists-never, find-test, find-All,
}
use seans.Table.Upsert.{upsert-one, find-upsert, find-update, select-upsert}
use seans.Models.{Database, MediaItem}
use seans.Kinopoisk.{
  has_kp_id, new_media, set_media, upsert_media, object_of, set_tmdb_id, save_tmdb_id, if_unknown,
  resolve_media, resolve_returned, upsert_media_items, search_media,
}
use seans.Kinopoisk.Known.{HasTmdbId, search_media-HasTmdbId}
use seans.Kinopoisk.Films.{Kinopoisk, search_kinopoisk}
use seans.Kinopoisk.Fixtures.{MediaFields}

-- The unique constraint on `kp_id`.
abbrev pub IsKeyed : List MediaItem → Type 0
IsKeyed rows = (k : ℤ) → length (select (has_kp_id (some k)) rows) ≤ 1

-- The medium is still there under its id, with its Kinopoisk id and its kind.
abbrev pub IsKept : MediaItem → List MediaItem → Type 0
IsKept r rows =
    (s : MediaItem) × (find (λ x. x.id == r.id) rows ≡ some s)
    × (s.kp_id ≡ r.kp_id)
    × (s.kp_type ≡ r.kp_type)

upsert_media-IsKept :
    (json : MediaFields → String) (id now : ℕ) (item : MediaFields) (r : MediaItem)
    (rows : List MediaItem)
    → IsKept r rows
    → IsKept r (upsert_media json id now item rows)
unfolding upsert_media
upsert_media-IsKept json id now item r rows (s, found, kp, kind) =
    let (t, found', old) =
      find-upsert (has_kp_id item.kp_id) (λ x. x.id == r.id) (set_media json now item)
        (new_media json id now item) (λ _ k. k) (λ _ k. k) rows s found in
    elim old [ inl e ↦ (t, found', rw e kp, rw e kind) | inr e ↦ (t, found', rw e kp, rw e kind) ]

set_tmdb_id-IsKept :
    (id : ℕ) (tmdb_id : ℤ) (r : MediaItem) (rows : List MediaItem)
    → IsKept r rows
    → IsKept r (set_tmdb_id id tmdb_id rows)
set_tmdb_id-IsKept id tmdb_id r rows (s, found, kp, kind) =
    let (t, found', old) =
      find-update (λ x. x.id == id) (λ x. x.id == r.id) (λ x. record x { tmdb_id = some tmdb_id }) r
        (λ _ k. k) (λ _ k. k) rows s found in
    elim old [ inl e ↦ (t, found', rw e kp, rw e kind) | inr e ↦ (t, found', rw e kp, rw e kind) ]

other_kp_id :
    (j k : ℤ) (row : MediaItem)
    → eq_ℤ j k ≡ false
    → has_kp_id (some j) row ≡ true
    → has_kp_id (some k) row ≡ false
other_kp_id j k row other fits = ground arith

upsert-IsKeyed :
    (kp_id : Option ℤ) (f : MediaItem → MediaItem) (x : MediaItem) (rows : List MediaItem)
    → x.kp_id ≡ kp_id
    → ((y : MediaItem) → (f y).kp_id ≡ y.kp_id)
    → IsKeyed rows
    → IsKeyed (upsert (has_kp_id kp_id) f x rows)
unfolding upsert
upsert-IsKeyed none f x rows null keeps keyed k =
    rw (exists-never rows, select-append_miss (has_kp_id (some k)) rows x (rw null refl)) (keyed k)
upsert-IsKeyed (some j) f x rows own keeps keyed k =
    let key = has_kp_id (some j) in
    let fits : key x ≡ true = rw own (ground arith) in
    let still : (y : MediaItem) → key y ≡ true → key (f y) ≡ true = λ y h. rw (keeps y) h in
    elim (Bool-cases (eq_ℤ j k)) [
      | inl same ↦
          let one = upsert-one key f x fits still rows (keyed j) in
          let to_k : j ≡ k = eq_of_parts j k (ground arith) in rw (sym to_k) (omega arith)
      | inr other ↦
          rw
            (select-upsert key (has_kp_id (some k)) f x (λ y. other_kp_id j k y other) still fits
              rows)
            (keyed k)
    ]

upsert_media-IsKeyed :
    (json : MediaFields → String) (id now : ℕ) (item : MediaFields) (rows : List MediaItem)
    → IsKeyed rows
    → IsKeyed (upsert_media json id now item rows)
unfolding upsert_media
upsert_media-IsKeyed json id now item rows =
    upsert-IsKeyed item.kp_id (set_media json now item) (new_media json id now item) rows refl
      (λ _. refl)

set_tmdb_id-IsKeyed :
    (id : ℕ) (tmdb_id : ℤ) (rows : List MediaItem)
    → IsKeyed rows
    → IsKeyed (set_tmdb_id id tmdb_id rows)
set_tmdb_id-IsKeyed id tmdb_id rows keyed k =
    rw
      (length-select-update_where (λ r. r.id == id) (has_kp_id (some k))
        (λ r. record r { tmdb_id = some tmdb_id }) rows (λ _. refl))
      (keyed k)

-- What the two writes keep, a search keeps.
module _ {ℓ} (P : List MediaItem → Type ℓ) (kp : Kinopoisk) (now : ℕ)
    (upserts : (id : ℕ) (item : MediaFields) (rows : List MediaItem)
      → P rows
      → P (upsert_media kp.json id now item rows))
    (sets : (id : ℕ) (tmdb_id : ℤ) (rows : List MediaItem)
      → P rows
      → P (set_tmdb_id id tmdb_id rows)) where
  save_tmdb_id-keeps :
      (id : ℕ) (o : Option ℤ) (loaded rows : List MediaItem)
      → P rows
      → P (save_tmdb_id id o (loaded, rows)).1
  save_tmdb_id-keeps id none loaded rows h = h
  save_tmdb_id-keeps id (some tmdb_id) loaded rows h = sets id tmdb_id rows h

  if_unknown-keeps :
      (o : Option ℤ) (s t : List MediaItem × List MediaItem)
      → P s.1
      → P t.1
      → P (if_unknown o s t).1
  if_unknown-keeps none s t h k = h
  if_unknown-keeps (some tmdb_id) s t h k = k

  resolve_returned-keeps :
      (row : Option MediaItem) (loaded rows : List MediaItem)
      → P rows
      → P (resolve_returned kp row loaded rows).1
  unfolding resolve_media
  resolve_returned-keeps none loaded rows h = h
  resolve_returned-keeps (some row) loaded rows h =
      let o = object_of loaded row in
      if_unknown-keeps o.tmdb_id _ _ (save_tmdb_id-keeps o.id _ _ rows h) h

  upsert_media_items-keeps :
      (ids : ℕ → ℕ) (items : List MediaFields) (loaded rows : List MediaItem)
      → P rows
      → P (upsert_media_items kp ids now items loaded rows).1
  unfolding upsert_media_items
  upsert_media_items-keeps ids [] loaded rows h = h
  upsert_media_items-keeps ids (item ∷ items) loaded rows h =
      upsert_media_items-keeps (λ n. ids (suc n)) items _ _
        (resolve_returned-keeps _ loaded _ (upserts (ids 0) item rows h))

  search_media-keeps :
      (ids : ℕ → ℕ) (q : String) (db : Database)
      → P db.media_items
      → P (search_media kp ids now q db).1.media_items
  unfolding search_media
  search_media-keeps ids q db h = elim (Option-cases (search_kinopoisk kp q)) [
    | inl e ↦ rw e h
    | inr (items, e) ↦ rw e (upsert_media_items-keeps ids items [] db.media_items h)
  ]

-- A TMDB id that the only row of an id has.
owned :
    (r : MediaItem) (k : ℤ) (rows : List MediaItem)
    → r.tmdb_id ≡ some k
    → All (λ x. x.id ≡ r.id → x ≡ r) rows
    → All (HasTmdbId r.id k) rows
owned r k rows e = All-weaken _ _ rows (λ x only same. let eq = only same in rw eq e)

-- A search, whatever the two services answer to it: if no two media had one Kinopoisk id, no two have
-- afterwards; and a medium that was in the table is still there under its id, with the same Kinopoisk
-- id, kind, and TMDB id if it had one. (No other row has its id, nor does a new row get it.)
pub search_media_keeps :
    (kp : Kinopoisk) (ids : ℕ → ℕ) (now : ℕ) (q : String) (db : Database) (r : MediaItem)
    → IsKeyed db.media_items
    → find (λ x. x.id == r.id) db.media_items ≡ some r
    → All (λ x. x.id ≡ r.id → x ≡ r) db.media_items
    → ((n : ℕ) → ids n ≢ r.id)
    → let db' = (search_media kp ids now q db).1 in
      IsKeyed db'.media_items
      × (s : MediaItem) × (find (λ x. x.id == r.id) db'.media_items ≡ some s)
      × (s.kp_id ≡ r.kp_id)
      × (s.kp_type ≡ r.kp_type)
      × ((k : ℤ) → r.tmdb_id ≡ some k → s.tmdb_id ≡ some k)
search_media_keeps kp ids now q db r keyed there only fresh =
    let (s, found, same_kp_id, kind) =
      search_media-keeps (IsKept r) kp now (λ id item. upsert_media-IsKept kp.json id now item r)
        (λ id tmdb_id. set_tmdb_id-IsKept id tmdb_id r) ids q db (r, there, refl, refl) in
    let rows = (search_media kp ids now q db).1.media_items in
    (
      search_media-keeps IsKeyed kp now (λ id. upsert_media-IsKeyed kp.json id now)
          set_tmdb_id-IsKeyed ids q db keyed,
      s,
      found,
      same_kp_id,
      kind,
      λ k e.
          let known =
            search_media-HasTmdbId r.id k kp ids now q db fresh (owned r k db.media_items e only) in
          let same = find-test (λ x. x.id == r.id) rows s found in
          find-All (λ x. x.id == r.id) (HasTmdbId r.id k) rows s known found (ground arith),
    )
