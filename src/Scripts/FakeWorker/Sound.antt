-- ===== src/Scripts/FakeWorker/Sound.antt =====
-- The invariant of the tasks over the requests of a turn of the fake worker.
use seans.Prelude.{ℕ, ◌+◌, String, Bool, Option, none, some, List, [], ◌∷◌}
use seans.Http.{Action, Result, ok, raise, resume, ◌>>=◌, pure}
use seans.Models.{Database}
use seans.Lifecycle.{Env}
use seans.Lifecycle.Invariant.{
  AllSound, claim-AllSound, manifest-AllSound, heartbeat-AllSound, complete-AllSound,
}
use seans.WorkerApi.{
  ClaimResponse, worker_claim, worker_manifest, worker_heartbeat, worker_complete,
}
use seans.WorkerApi.Auth.{with_worker-keeps}
use seans.Scripts.FakeWorker.{
  heartbeats, heartbeat, finish, report, claim, send_manifest, complete, deliver, turn,
  manifest_body, heartbeat_body, complete_body,
}

-- An action keeps `P` if its parts do.
bind-keeps {ℓ κ μ ν} :
    {S : Type ℓ} {A : Type κ} {B : Type μ} (P : S → Type ν) (m : Action S A) (f : A → Action S B)
    (s : S)
    → (P s → P (m s).1)
    → ((a : A) (t : S) → P t → P (f a t).1)
    → P s
    → P ((m >>= f) s).1
bind-keeps P m f s first rest h = resumed (m s) (first h)
  where
    resumed : (r : Result _ × _) → P r.1 → P (resume f r).1
    resumed (ok a, t) h = rest a t h
    resumed (raise e, t) h = h

module _ (env : Env) (clock : ℕ → ℕ) (token : String) where
  heartbeats-AllSound :
      (id : ℕ) (rounds : List ℕ) (db : Database)
      → AllSound db
      → AllSound (heartbeats env clock token id rounds db).1
  unfolding heartbeats heartbeat
  heartbeats-AllSound id [] db h = h
  heartbeats-AllSound id (i ∷ rounds) db h =
      let now = clock (i + 3) in
      bind-keeps AllSound (heartbeat env clock token id i)
        (λ _. heartbeats env clock token id rounds) db
        (with_worker-keeps AllSound env.sha256 now token
          (worker_heartbeat env.settings now (heartbeat_body id i)) db (λ _ s. s)
          (heartbeat-AllSound env now (heartbeat_body id i)))
        (λ _. heartbeats-AllSound id rounds) h

  finish-AllSound :
      (id : ℕ) (db : Database) → AllSound db → AllSound (finish env clock token id db).1
  unfolding finish complete
  finish-AllSound id db h =
      bind-keeps AllSound (complete env clock token id) (λ _. pure id) db
        (with_worker-keeps AllSound env.sha256 (clock 6) token
          (worker_complete (clock 6) (complete_body id)) db (λ _ s. s)
          (complete-AllSound env (clock 6) (complete_body id)))
        (λ _ _ s. s) h

  report-AllSound :
      (id : ℕ) (db : Database) → AllSound db → AllSound (report env clock token id db).1
  unfolding report
  report-AllSound id db h =
      bind-keeps AllSound (heartbeats env clock token id (0 ∷ 1 ∷ 2 ∷ []))
        (λ _. finish env clock token id) db (heartbeats-AllSound id (0 ∷ 1 ∷ 2 ∷ []) db)
        (λ _. finish-AllSound id) h

  deliver-AllSound :
      (new_id : ℕ → ℕ) (claimed : Option ClaimResponse) (db : Database)
      → AllSound db
      → AllSound (deliver env clock token new_id claimed db).1
  unfolding deliver send_manifest
  deliver-AllSound new_id none db h = h
  deliver-AllSound new_id (some task) db h =
      let body = manifest_body task.task_id in
      bind-keeps AllSound (send_manifest env clock token new_id task.task_id)
        (λ _. report env clock token task.task_id) db
        (with_worker-keeps AllSound env.sha256 (clock 2) token
          (worker_manifest env.str_uuid env.presign_put new_id body) db (λ _ s. s)
          (manifest-AllSound env (clock 2) new_id body))
        (λ _. report-AllSound task.task_id) h

  -- However a turn of the fake worker ends, at its end or at a refused request, it
  -- leaves every task sound.
  pub turn-AllSound :
      (locked : ℕ → Bool) (new_id : ℕ → ℕ) (db : Database)
      → AllSound db
      → AllSound (turn env clock token locked new_id db).1
  unfolding turn claim
  turn-AllSound locked new_id db h =
      bind-keeps AllSound (claim env clock token locked) (deliver env clock token new_id) db
        (with_worker-keeps AllSound env.sha256 (clock 1) token
          (worker_claim env.settings locked (clock 1)) db (λ _ s. s)
          (claim-AllSound env (clock 1) locked))
        (deliver-AllSound new_id) h
