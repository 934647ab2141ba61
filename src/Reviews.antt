-- ===== src/Reviews.antt =====
-- app/routers/reviews.py: the reviews of media. (A path that is no UUID is not modelled: a medium's
-- id is a number.)
pub mod Upsert
use seans.Prelude.{
  ℕ, String, Bool, true, false, not, Option, none, some, List, [], ◌∷◌, ◌&&◌, ltb, ◌==◌,
  if◌then◌else◌,
}
use seans.Prelude.Int.{ℤ, pos, leb_ℤ}
use seans.Http.{
  Action, http, internal_server_error, or_raise, raise_if, pure, gets, commit, ◌>>=◌, ◌>>◌,
}
use seans.Table.{select, find, upsert, order_by}
use seans.Models.{Database, User, MediaItem, Review}

pub record ReviewUpsertRequest : Type 0 where
  pub score : ℤ
  pub review : Option String

-- `1 <= body.score <= 10`
abbrev pub is_score : ℤ → Bool
is_score score = leb_ℤ (pos 1) score && leb_ℤ score (pos 10)

abbrev pub new_review : ℕ → ℕ → User → ℕ → ReviewUpsertRequest → Review
new_review id now user media_item_id body = record {
  id = id;
  user_id = user.id;
  media_item_id = media_item_id;
  score = body.score;
  review = body.review;
  created_at = now;
  updated_at = now;
}

-- `index_elements=["user_id", "media_item_id"]`
abbrev pub is_review : ℕ → ℕ → Review → Bool
is_review user_id media_item_id row = row.user_id == user_id && row.media_item_id == media_item_id

-- `set_={…}`
abbrev pub set_review : ℕ → ReviewUpsertRequest → Review → Review
set_review now body row = record row { score = body.score; review = body.review; updated_at = now }

-- `id` is the `uuid4()` of the row, if it is a new one. The row that `RETURNING` gives is the one
-- with the unique columns.
unfoldable pub upsert_review : ℕ → ℕ → ℕ → ReviewUpsertRequest → User → Action Database Review
upsert_review id now media_item_id body user = do
  found ← gets (λ db. find (λ m. m.id == media_item_id) db.media_items)
  _ ← or_raise found (http 404 "Media item not found")
  raise_if (not (is_score body.score)) (http 422 "Score must be 1-10")
  commit (λ db. record db {
    reviews =
        upsert (is_review user.id media_item_id) (set_review now body)
          (new_review id now user media_item_id body) db.reviews;
  })
  row ← gets (λ db. find (is_review user.id media_item_id) db.reviews)
  or_raise row internal_server_error

-- `Review.created_at.desc()`
abbrev pub newer_review : Review → Review → Bool
newer_review r s = ltb s.created_at r.created_at

unfoldable pub get_reviews : ℕ → Database → List Review
get_reviews media_item_id db =
    order_by newer_review (select (λ r. r.media_item_id == media_item_id) db.reviews)
