-- ===== src/WorkerApi/Auth.antt =====
-- `get_worker` and the handlers behind it.
use seans.Prelude.{ℕ, ◌≡◌, ◌⊎◌, refl, inl, inr, String, some, List, [], ◌∷◌, str_eq, ◌==◌}
use seans.Http.{
  HttpException, Result, Action, ok, raise, http, internal_server_error, or_raise, pure, commit,
  ◌>>=◌, ◌>>◌,
}
use seans.Table.{select, update_where}
use seans.Models.{Database, Worker}
use seans.WorkerApi.{one_or_none, get_worker, with_worker}

-- `get_worker` refuses and writes nothing, or writes the table of workers and nothing else.
abbrev pub GetWorkerCases : Database → Result Worker × Database → Type 0
GetWorkerCases db r =
    ((e : HttpException) × (r ≡ (raise e, db)))
    ⊎ ((w : Worker) × (ws : List Worker) × (r ≡ (ok w, record db { workers = ws })))

pub get_worker_cases :
    (sha256 : String → String) (now : ℕ) (token : String) (db : Database)
    → GetWorkerCases db (get_worker sha256 now token db)
unfolding get_worker
get_worker_cases sha256 now token db =
    by_rows (select (λ w. str_eq w.token_hash (sha256 token)) db.workers)
  where
    by_rows :
        (rows : List Worker)
        → GetWorkerCases db (
            (do
              found ← one_or_none rows
              worker ← or_raise found (http 401 "Invalid worker token")
              let seen = record worker { last_seen_at = some now }
              commit (λ d. record d {
                workers = update_where (λ w. w.id == worker.id) (λ _. seen) d.workers;
              })
              pure seen)
              db)
    by_rows [] = inl (http 401 "Invalid worker token", refl)
    by_rows (w ∷ []) = inr (
      record w { last_seen_at = some now },
      update_where (λ v. v.id == w.id) (λ _. record w { last_seen_at = some now }) db.workers,
      refl,
    )
    by_rows (_ ∷ _ ∷ _) = inl (internal_server_error, refl)

-- What no change of the workers touches, and what the handler keeps, the request keeps.
pub with_worker-keeps {κ} :
    {A : Type 0} (P : Database → Type κ) (sha256 : String → String) (now : ℕ) (token : String)
    (handler : Worker → Action Database A) (db : Database)
    → ((ws : List Worker) → P db → P (record db { workers = ws }))
    → ((w : Worker) (d : Database) → P d → P (handler w d).1)
    → P db
    → P (with_worker sha256 now token handler db).1
unfolding with_worker
with_worker-keeps P sha256 now token handler db other keep h =
    elim (get_worker_cases sha256 now token db) [
      | inl (e, refused) ↦ rw refused h
      | inr (w, ws, passed) ↦ rw passed (keep w _ (other ws h))
    ]
