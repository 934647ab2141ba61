-- ===== src/Tests/Api.antt =====
-- The handlers of the workers.
use seans.Prelude.{
  ◌⊎◌, not, ◌||◌, str_eq, ◌+◌, ◌≡◌, refl, true, false, none, some, [], ◌∷◌, arith, is_id,
}
use seans.Prelude.Int.{pos, ◌≤ℤ◌}
use seans.Http.{ok, raise, http, internal_server_error}
use seans.Table.{select, find, exists}
use seans.Models.{Database, Task, Worker}
use seans.Config.{minutes}
use seans.TaskQueue.{save_task, extend_lease, reclaim_expired_tasks}
use seans.WorkerApi.{
  FileEntry, ManifestBody, HeartbeatBody, CompleteBody, FailBody, UploadSlot, add_files,
  upload_slots, s3_key_of, base_name, last_part, get_task, worker_manifest, worker_heartbeat,
}
use seans.WorkerApi.Finish.{task_row}
use seans.WorkerApi.Manifest.{manifest_repeat_refused}
use seans.WorkerApi.Progress.{heartbeat_protects}
use seans.WorkerApi.{secret_matches, register_worker, get_worker}
use seans.WorkerApi.Registration.{register_worker_authenticates}
use seans.Quota.{get_reserved_bytes}
use seans.WorkerApi.Reserve.{manifest_reserves_no_more}
use seans.Tests.Sample.{settings, env, worker_row, held_task, with_tasks}

abbrev one : Worker
one = worker_row 1 "one"

abbrev two : Worker
two = worker_row 2 "two"

abbrev held : Database
held = with_tasks (held_task 11 1 ∷ [])

abbrev beat : HeartbeatBody
beat = record { task_id = some 11; progress_pct = some (pos 5); speed_bps = none; stage = none }

abbrev done : CompleteBody
done = record { task_id = some 11; files = none }

abbrev failure : FailBody
failure = record { task_id = some 11; error = none }

abbrev entry : FileEntry
entry = record { path = "dir/a.mkv"; size_bytes = some (pos 300); s3_key = none }

abbrev body : ManifestBody
body = record { task_id = some 11; files = some (entry ∷ []) }

heartbeat_protects_example :
    let db' = (reclaim_expired_tasks 1000 (worker_heartbeat settings 50 beat one held).1).1 in
    (t' : Task) × (task_row (some 11) db' ≡ some t')
    × (t'.status ≡ (held_task 11 1).status)
    × (is_id t'.worker_id 1 ≡ true)
    × (t'.lease_expires_at ≡ some (50 + minutes 30))
unfolding find worker_heartbeat get_task extend_lease
heartbeat_protects_example =
    heartbeat_protects settings 50 1000 beat one held (held_task 11 1) refl refl refl (ground arith)

abbrev slot : UploadSlot
slot = record { path = "dir/a.mkv"; s3_key = "users/u/u/a.mkv"; put_url = "users/u/u/a.mkv" }

abbrev manifested : Database
manifested = (worker_manifest env.str_uuid env.presign_put (λ i. i) body one held).1

manifest_repeat_refused_example :
    worker_manifest env.str_uuid env.presign_put (λ i. i + 9) body two manifested
    ≡ (raise internal_server_error, manifested)
unfolding worker_manifest get_task find add_files exists save_task upload_slots select s3_key_of
    base_name last_part
manifest_repeat_refused_example =
    manifest_repeat_refused env.str_uuid env.presign_put (λ i. i) (λ i. i + 9) body body one two
      held (11, slot ∷ []) entry entry [] [] refl refl refl refl refl

register_worker_authenticates_example :
    ((register_worker settings (λ s. s) 3 10 "three" (some "w") (some "secret") held
        ≡ (raise (http 401 "Invalid registration secret"), held))
      × (str_eq "w" "" || not (secret_matches (some "secret") "secret") ≡ true))
    ⊎ ((worker : Worker) × ((register_worker settings
            (λ s. s)
            3
            10
            "three"
            (some "w")
            (some "secret")
            held).0
          ≡ ok "three")
        × (str_eq "w" "" || not (secret_matches (some "secret") "secret") ≡ false)
        × ((get_worker
              (λ s. s)
              20
              "three"
              (register_worker settings (λ s. s) 3 10 "three" (some "w") (some "secret") held).1).0
            ≡ ok worker)
        × (worker.id ≡ 3)
        × (worker.name ≡ "w"))
register_worker_authenticates_example =
    register_worker_authenticates settings (λ s. s) 3 10 20 "three" (some "w") (some "secret") held
      (refl, (refl, tt))

manifest_reserves_no_more_example : get_reserved_bytes manifested 1 ≤ℤ get_reserved_bytes held 1
unfolding worker_manifest get_task find add_files exists save_task upload_slots select s3_key_of
    base_name last_part
manifest_reserves_no_more_example =
    manifest_reserves_no_more env.str_uuid env.presign_put (λ i. i) body one held (11, slot ∷ []) 1
      (ground arith, tt) (tt, tt) refl
