-- ===== src/WorkerApi/Registration.antt =====
-- From the registration of a worker to its first request.
use text.Mathlib.TextPositions.{eq_refl}
use seans.Prelude.{
  ℕ, ◌≡◌, ◌⊎◌, refl, String, true, false, not, Option, none, some, List, [], ◌∷◌, ◌++◌, ◌||◌, All,
  arith, inl, inr, Bool-cases, get_or, str_eq,
}
use seans.Http.{ok, raise, http}
use seans.Table.{select}
use seans.Table.Laws.{select-append}
use seans.Models.{Database, Worker}
use seans.Config.{Settings}
use seans.WorkerApi.{secret_matches, register_worker, get_worker}

no_rows :
    (hash : String) (workers : List Worker)
    → All (λ w. str_eq w.token_hash hash ≡ false) workers
    → select (λ w. str_eq w.token_hash hash) workers ≡ []
unfolding select
no_rows hash [] h = refl
no_rows hash (w ∷ workers) (other, h) = ground (arith, no_rows hash workers h)

only_row :
    (hash : String) (workers : List Worker) (w : Worker)
    → All (λ v. str_eq v.token_hash hash ≡ false) workers
    → w.token_hash ≡ hash
    → select (λ v. str_eq v.token_hash hash) (workers ++ w ∷ []) ≡ w ∷ []
only_row hash workers w others own =
    rw (select-append (λ v. str_eq v.token_hash hash) workers (w ∷ []), no_rows hash workers others)
      (unfold select in rw (own, eq_refl hash))

module _ (settings : Settings) (sha256 : String → String) (id now later : ℕ) (token : String)
    (name reg_secret : Option String) (db : Database) where
  -- A registration is accepted exactly for a name that is not empty and the secret of the settings;
  -- a refused one changes nothing. The token that an accepted one returns authenticates the new
  -- worker from then on, under the name that was sent. (No other worker has a token of that hash.)
  pub register_worker_authenticates :
      All (λ w. str_eq w.token_hash (sha256 token) ≡ false) db.workers
      → ((register_worker settings sha256 id now token name reg_secret db
            ≡ (raise (http 401 "Invalid registration secret"), db))
          × (str_eq (get_or name "") ""
                || not (secret_matches reg_secret settings.worker_reg_secret)
              ≡ true))
        ⊎ ((worker : Worker) × ((register_worker settings sha256 id now token name reg_secret db).0
              ≡ ok token)
            × (str_eq (get_or name "") ""
                  || not (secret_matches reg_secret settings.worker_reg_secret)
                ≡ false)
            × ((get_worker sha256 later token
                  (register_worker settings sha256 id now token name reg_secret db).1).0
                ≡ ok worker)
            × (worker.id ≡ id)
            × (worker.name ≡ get_or name ""))
  unfolding register_worker get_worker
  register_worker_authenticates others =
      elim (Bool-cases (
        str_eq (get_or name "") "" || not (secret_matches reg_secret settings.worker_reg_secret))) [
          | inl bad ↦ inl (rw bad, bad)
          | inr good ↦
              let row : Worker = record {
                id = id;
                name = get_or name "";
                token_hash = sha256 token;
                last_seen_at = none;
                registered_at = now;
              } in
              inr (
                record row { last_seen_at = some later },
                rw good,
                good,
                rw (good, only_row (sha256 token) db.workers row others refl),
                refl,
                refl,
              )
        ]
