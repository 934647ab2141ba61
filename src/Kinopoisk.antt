-- ===== src/Kinopoisk.antt =====
-- The search for media: app/services/kinopoisk.py, and `search` of app/routers/media.py. The
-- answers of the two services, `str.lower`, `float` and the JSON text of a value are parameters.
-- FastAPI checks that the query is not empty.
pub mod Fixtures
pub mod Films
pub mod Known
pub mod Kept
use Prim.Native.Char.{code}
use seans.Prelude.{
  ℕ, zero, suc, String, Bool, true, false, Option, none, some, List, [], ◌∷◌, ◌++◌, ◌&&◌, ◌||◌, map,
  chars, is_truthy, or_text, str_eq, ◌==◌, leb, get_or, if◌then◌else◌,
}
use seans.Prelude.Decimal.{value}
use seans.Prelude.Int.{ℤ, pos, eq_ℤ}
use seans.Prelude.Options.{or_else, get, map_option}
use seans.Http.{Action, internal_server_error, or_raise, pure, gets, commit, ◌>>=◌, ◌>>◌}
use seans.Table.{select, find, upsert, update_where}
use seans.Models.{Database, MediaItem, KpType}
use seans.Regex.{Text, search, literal, same}
use seans.HttpClient.{Reply, Request, received}
use seans.Tmdb.{TmdbBody, resolve_tmdb_id}
use seans.Kinopoisk.Fixtures.{MediaFields}
use seans.Kinopoisk.Films.{Kinopoisk, search_kinopoisk}

-- `.values(…)`
abbrev pub new_media : (MediaFields → String) → ℕ → ℕ → MediaFields → MediaItem
new_media json id now item = record {
  id = id;
  kp_id = item.kp_id;
  tmdb_id = item.tmdb_id;
  kp_type = item.kp_type;
  title = item.title;
  original_title = item.original_title;
  year = item.year;
  poster_url = item.poster_url;
  overview = item.overview;
  rating_kp = item.rating_kp;
  genres = item.genres;
  raw = json item;
  updated_at = now;
}

-- `set_={…}`
abbrev pub set_media : (MediaFields → String) → ℕ → MediaFields → MediaItem → MediaItem
set_media json now item row = record row {
  title = item.title;
  original_title = item.original_title;
  year = item.year;
  poster_url = item.poster_url;
  overview = item.overview;
  rating_kp = item.rating_kp;
  genres = item.genres;
  raw = json item;
  updated_at = now;
}

-- `index_elements=["kp_id"]`: a null is equal to nothing.
abbrev pub has_kp_id : Option ℤ → MediaItem → Bool
has_kp_id none row = false
has_kp_id (some kp_id) row = elim row.kp_id [ none ↦ false | some k ↦ eq_ℤ k kp_id ]

unfoldable pub upsert_media :
    (MediaFields → String) → ℕ → ℕ → MediaFields → List MediaItem → List MediaItem
upsert_media json id now item =
    upsert (has_kp_id item.kp_id) (set_media json now item) (new_media json id now item)

-- The row that `RETURNING` gives: the one that was changed, or else the new one.
abbrev pub returned_row : Option ℤ → ℕ → List MediaItem → Option MediaItem
returned_row kp_id id rows = or_else (find (has_kp_id kp_id) rows) (find (λ r. r.id == id) rows)

-- The session keeps the object that it has of a row, and does not refresh it.
abbrev pub object_of : List MediaItem → MediaItem → MediaItem
object_of loaded row = get_or (find (λ r. r.id == row.id) loaded) row

-- `media_item.tmdb_id = tmdb_id`, for the object and at the commit for its row.
abbrev pub set_tmdb_id : ℕ → ℤ → List MediaItem → List MediaItem
set_tmdb_id id tmdb_id = update_where (λ r. r.id == id) (λ r. record r { tmdb_id = some tmdb_id })

-- `if tmdb_id is not None: …`
abbrev pub save_tmdb_id :
    ℕ → Option ℤ → List MediaItem × List MediaItem → List MediaItem × List MediaItem
save_tmdb_id id none done = done
save_tmdb_id id (some tmdb_id) (loaded, rows) =
    (set_tmdb_id id tmdb_id loaded, set_tmdb_id id tmdb_id rows)

-- `if media_item.tmdb_id is None: …`
abbrev pub if_unknown {ℓ} : {A : Type ℓ} → Option ℤ → A → A → A
if_unknown none resolved done = resolved
if_unknown (some tmdb_id) resolved done = done

-- The part of the loop's body below the first commit, for the object of the row; the result is the
-- objects so far, and the table.
unfoldable pub resolve_media :
    Kinopoisk → MediaItem → List MediaItem → List MediaItem → List MediaItem × List MediaItem
unfolding resolve_tmdb_id
resolve_media kp media_item loaded rows =
    let found =
      resolve_tmdb_id kp.tmdb_api_token kp.tmdb media_item.title media_item.original_title
        media_item.year media_item.kp_type in
    let objects = loaded ++ media_item ∷ [] in
    if_unknown media_item.tmdb_id (save_tmdb_id media_item.id found (objects, rows)) (objects, rows)

abbrev pub resolve_returned :
    Kinopoisk → Option MediaItem → List MediaItem → List MediaItem → List MediaItem × List MediaItem
resolve_returned kp none loaded rows = (loaded, rows)
resolve_returned kp (some row) loaded rows = resolve_media kp (object_of loaded row) loaded rows

unfoldable pub upsert_media_items :
    Kinopoisk
    → (ℕ → ℕ)
    → ℕ
    → List MediaFields
    → List MediaItem
    → List MediaItem
    → List MediaItem × List MediaItem
unfolding upsert_media resolve_media
upsert_media_items kp ids now [] loaded rows = (loaded, rows)
upsert_media_items kp ids now (item ∷ items) loaded rows =
    let rows' = upsert_media kp.json (ids 0) now item rows in
    let done = resolve_returned kp (returned_row item.kp_id (ids 0) rows') loaded rows' in
    upsert_media_items kp (λ n. ids (suc n)) now items done.0 done.1

pub record MediaSearchResult : Type 0 where
  pub id : ℕ
  pub kp_id : Option ℤ
  pub tmdb_id : Option ℤ
  pub title : String
  pub year : Option ℤ
  pub poster_url : Option String
  pub kp_type : KpType
  pub rating_kp : Option ℤ

-- `MediaSearchResult.model_validate(m)`
abbrev pub search_result : MediaItem → MediaSearchResult
search_result m = record {
  id = m.id;
  kp_id = m.kp_id;
  tmdb_id = m.tmdb_id;
  title = m.title;
  year = m.year;
  poster_url = m.poster_url;
  kp_type = m.kp_type;
  rating_kp = m.rating_kp;
}

-- `search` of the router.
unfoldable pub search_media :
    Kinopoisk → (ℕ → ℕ) → ℕ → String → Action Database (List MediaSearchResult)
unfolding search_kinopoisk upsert_media_items
search_media kp ids now q = do
  items ← or_raise (search_kinopoisk kp q) internal_server_error
  done ← gets (λ db. upsert_media_items kp ids now items [] db.media_items)
  commit (λ db. record db { media_items = done.1 })
  pure (map search_result done.0)
