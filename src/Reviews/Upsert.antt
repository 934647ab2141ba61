-- ===== src/Reviews/Upsert.antt =====
-- What an accepted review leaves in the table.
use seans.Prelude.{
  ℕ, ◌≤◌, ◌≡◌, ◌∙◌, refl, ap, true, not, some, length, arith, inl, inr, ◌==◌, ==_self, Bool-cases,
  Option-cases,
}
use seans.Prelude.Int.{pos, ◌≤ℤ◌}
use seans.Http.{ok}
use seans.Table.{select, find}
use seans.Table.Upsert.{upsert-one, upsert-others, upsert-found}
use seans.Models.{Database, User, Review}
use seans.Reviews.{ReviewUpsertRequest, is_score, is_review, new_review, set_review, upsert_review}

-- An accepted review is saved: the row that is returned is in the table, it is the user's only review
-- of the medium, and it holds the score and the text of the request, the score from 1 to 10. The
-- other reviews stay as they are. (The user had one review of the medium at most.)
pub upsert_review_saved :
    (id now media_item_id : ℕ) (body : ReviewUpsertRequest) (user : User) (db : Database)
    (r : Review)
    → length (select (is_review user.id media_item_id) db.reviews) ≤ 1
    → (upsert_review id now media_item_id body user db).0 ≡ ok r
    → let db' = (upsert_review id now media_item_id body user db).1 in
      (find (is_review user.id media_item_id) db'.reviews ≡ some r)
      × (length (select (is_review user.id media_item_id) db'.reviews) ≡ 1)
      × (r.score ≡ body.score)
      × (r.review ≡ body.review)
      × (pos 1 ≤ℤ r.score)
      × (r.score ≤ℤ pos 10)
      × (select (λ s. not (is_review user.id media_item_id s)) db'.reviews
          ≡ select (λ s. not (is_review user.id media_item_id s)) db.reviews)
unfolding upsert_review
upsert_review_saved id now media_item_id body user db r unique h =
    elim (Option-cases (find (λ m. m.id == media_item_id) db.media_items)) [
      | inl e ↦ absurd (ground arith)
      | inr (m, e) ↦ elim (Bool-cases (is_score body.score)) [
        | inr bad ↦ let refused = rw (e, bad) at h in absurd (ground arith)
        | inl good ↦
            let key = is_review user.id media_item_id in
            let row = new_review id now user media_item_id body in
            let fits : key row ≡ true = ground (arith, ==_self user.id, ==_self media_item_id) in
            let (s, found, (score, text)) =
              upsert-found key (set_review now body) row fits (λ _ k. k)
                (λ s. (s.score ≡ body.score) × (s.review ≡ body.review)) db.reviews (refl, refl)
                (λ _ _. (refl, refl)) in
            let returned = rw (e, good, found) at h in
            let same : s ≡ r = ground arith in
            rw (e, good, found)
              (
                found ∙ ap some same,
                upsert-one key (set_review now body) row fits (λ _ k. k) db.reviews unique,
                ground arith,
                ground arith,
                ground arith,
                ground arith,
                upsert-others key (set_review now body) row fits (λ _ k. k) db.reviews,
              )
      ]
    ]
