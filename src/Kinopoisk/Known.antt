-- ===== src/Kinopoisk/Known.antt =====
-- The TMDB id that a medium has, in a search: `if media_item.tmdb_id is None` of
-- `upsert_media_items`, over the objects of the session and the rows.
use seans.Prelude.{
  ℕ, suc, ◌≡◌, ◌≢◌, refl, inl, inr, String, Option, none, some, List, [], ◌∷◌, ◌++◌, All,
  All-append, arith, ◌==◌, Bool-cases, Option-cases,
}
use seans.Prelude.Int.{ℤ}
use seans.Prelude.Options.{or_else-some}
use seans.Table.{find, exists, upsert}
use seans.Table.Laws.{find-All, update_where-All}
use seans.Models.{Database, MediaItem}
use seans.Kinopoisk.{
  has_kp_id, new_media, set_media, upsert_media, object_of, set_tmdb_id, save_tmdb_id, if_unknown,
  resolve_media, resolve_returned, returned_row, upsert_media_items, search_media,
}
use seans.Kinopoisk.Films.{Kinopoisk, search_kinopoisk}
use seans.Kinopoisk.Fixtures.{MediaFields}

if_unknown-both {ℓ κ} :
    {A : Type ℓ} (P : A → Type κ) (o : Option ℤ) (s t : A)
    → (o ≡ none → P s)
    → P t
    → P (if_unknown o s t)
if_unknown-both P none s t h k = h refl
if_unknown-both P (some tmdb_id) s t h k = k

module _ (own : ℕ) (k : ℤ) where
  -- What has the id of the medium has its TMDB id.
  abbrev pub HasTmdbId : MediaItem → Type 0
  HasTmdbId x = x.id ≡ own → x.tmdb_id ≡ some k

  upsert_media-HasTmdbId :
      (json : MediaFields → String) (id now : ℕ) (item : MediaFields) (rows : List MediaItem)
      → id ≢ own
      → All HasTmdbId rows
      → All HasTmdbId (upsert_media json id now item rows)
  unfolding upsert_media upsert
  upsert_media-HasTmdbId json id now item rows other h =
      elim (Bool-cases (exists (has_kp_id item.kp_id) rows)) [
        | inl there ↦ rw there (
            update_where-All (has_kp_id item.kp_id) HasTmdbId (set_media json now item) rows
              (λ x hit known. known) h)
        | inr free ↦ rw free (
            All-append HasTmdbId rows (new_media json id now item ∷ []) h
              (λ same. absurd (other same), tt))
      ]

  -- A write for another id.
  set_tmdb_id-HasTmdbId :
      (id : ℕ) (tmdb_id : ℤ) (rows : List MediaItem)
      → id ≢ own
      → All HasTmdbId rows
      → All HasTmdbId (set_tmdb_id id tmdb_id rows)
  set_tmdb_id-HasTmdbId id tmdb_id rows other =
      update_where-All (λ x. x.id == id) HasTmdbId _ rows
        (λ x hit known same. absurd (other (ground arith)))

  save_tmdb_id-HasTmdbId :
      (id : ℕ) (o : Option ℤ) (loaded rows : List MediaItem)
      → id ≢ own
      → All HasTmdbId loaded
      → All HasTmdbId rows
      → All HasTmdbId (save_tmdb_id id o (loaded, rows)).0
        × All HasTmdbId (save_tmdb_id id o (loaded, rows)).1
  save_tmdb_id-HasTmdbId id none loaded rows other hl hr = (hl, hr)
  save_tmdb_id-HasTmdbId id (some tmdb_id) loaded rows other hl hr = (
    set_tmdb_id-HasTmdbId id tmdb_id loaded other hl,
    set_tmdb_id-HasTmdbId id tmdb_id rows other hr,
  )

  object_of-HasTmdbId :
      (loaded : List MediaItem) (row : MediaItem)
      → All HasTmdbId loaded
      → HasTmdbId row
      → HasTmdbId (object_of loaded row)
  object_of-HasTmdbId loaded row hl h = elim (Option-cases (find (λ r. r.id == row.id) loaded)) [
    | inl e ↦ rw e h
    | inr (o, e) ↦ rw e (find-All (λ r. r.id == row.id) HasTmdbId loaded o hl e)
  ]

  resolve_media-HasTmdbId :
      (kp : Kinopoisk) (o : MediaItem) (loaded rows : List MediaItem)
      → HasTmdbId o
      → All HasTmdbId loaded
      → All HasTmdbId rows
      → All HasTmdbId (resolve_media kp o loaded rows).0
        × All HasTmdbId (resolve_media kp o loaded rows).1
  unfolding resolve_media
  resolve_media-HasTmdbId kp o loaded rows h hl hr =
      let objects = All-append HasTmdbId loaded (o ∷ []) hl (h, tt) in
      if_unknown-both
        (λ (s : List MediaItem × List MediaItem). All HasTmdbId s.0 × All HasTmdbId s.1) o.tmdb_id _
        _
        (λ e.
          let other : o.id ≢ own = λ same. let known = h same in ground arith in
          save_tmdb_id-HasTmdbId o.id _ (loaded ++ o ∷ []) rows other objects hr)
        (objects, hr)

  resolve_returned-HasTmdbId :
      (kp : Kinopoisk) (row : Option MediaItem) (loaded rows : List MediaItem)
      → ((x : MediaItem) → row ≡ some x → HasTmdbId x)
      → All HasTmdbId loaded
      → All HasTmdbId rows
      → All HasTmdbId (resolve_returned kp row loaded rows).0
        × All HasTmdbId (resolve_returned kp row loaded rows).1
  resolve_returned-HasTmdbId kp none loaded rows h hl hr = (hl, hr)
  resolve_returned-HasTmdbId kp (some row) loaded rows h hl hr =
      resolve_media-HasTmdbId kp (object_of loaded row) loaded rows
        (object_of-HasTmdbId loaded row hl (h row refl)) hl hr

  returned_row-HasTmdbId :
      (kp_id : Option ℤ) (id : ℕ) (rows : List MediaItem) (x : MediaItem)
      → All HasTmdbId rows
      → returned_row kp_id id rows ≡ some x
      → HasTmdbId x
  returned_row-HasTmdbId kp_id id rows x h =
      or_else-some HasTmdbId (find (has_kp_id kp_id) rows) (find (λ r. r.id == id) rows) x
        (λ y e. find-All (has_kp_id kp_id) HasTmdbId rows y h e)
        (λ e. find-All (λ r. r.id == id) HasTmdbId rows x h e)

  upsert_media_items-HasTmdbId :
      (kp : Kinopoisk) (ids : ℕ → ℕ) (now : ℕ) (items : List MediaFields)
      (loaded rows : List MediaItem)
      → ((n : ℕ) → ids n ≢ own)
      → All HasTmdbId loaded
      → All HasTmdbId rows
      → All HasTmdbId (upsert_media_items kp ids now items loaded rows).1
  unfolding upsert_media_items
  upsert_media_items-HasTmdbId kp ids now [] loaded rows fresh hl hr = hr
  upsert_media_items-HasTmdbId kp ids now (item ∷ items) loaded rows fresh hl hr =
      let rows' = upsert_media kp.json (ids 0) now item rows in
      let after = upsert_media-HasTmdbId kp.json (ids 0) now item rows (fresh 0) hr in
      let (objects, saved) =
        resolve_returned-HasTmdbId kp (returned_row item.kp_id (ids 0) rows') loaded rows'
          (λ x. returned_row-HasTmdbId item.kp_id (ids 0) rows' x after) hl after in
      upsert_media_items-HasTmdbId kp (λ n. ids (suc n)) now items _ _ (λ n. fresh (suc n)) objects
        saved

  pub search_media-HasTmdbId :
      (kp : Kinopoisk) (ids : ℕ → ℕ) (now : ℕ) (q : String) (db : Database)
      → ((n : ℕ) → ids n ≢ own)
      → All HasTmdbId db.media_items
      → All HasTmdbId (search_media kp ids now q db).1.media_items
  unfolding search_media
  search_media-HasTmdbId kp ids now q db fresh h = elim (Option-cases (search_kinopoisk kp q)) [
    | inl e ↦ rw e h
    | inr (items, e) ↦
        rw e (upsert_media_items-HasTmdbId kp ids now items [] db.media_items fresh tt h)
  ]
