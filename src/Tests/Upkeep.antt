-- ===== src/Tests/Upkeep.antt =====
-- The migrations and the scripts at concrete data.
use seans.Prelude.{ℕ, ◌≡◌, refl, true, false, none, some, [], ◌∷◌, All, str_eq, map}
use seans.Prelude.Options.{get}
use seans.Prelude.Int.{pos}
use seans.Http.{ok}
use seans.Table.{find, exists, select, update_where}
use seans.Models.{Database, TaskFile, MediaItem, Task, TaskStatus}
use seans.Schema.{
  Schema, every, has_column, find_table, points_to, has_target, is_on_columns, is_sound,
  refers_to_table, alter_table, append_column, set_nullable, append_index, has_index, is_free,
  is_unreferenced, change, extensions_after, apply, run,
}
use seans.Schema.Consistent.{is_consistent}
use seans.Migrations.{Revision, upgrade, downgrade, is_undone}
use seans.Migrations.Revision.{
  initial_schema, invite_system, add_tmdb_id, seed_invite_key, admin_plans,
}
use seans.Migrations.Reverted.{downgrade-upgrade}
use seans.Schema.{Operation}
use seans.Prelude.{◌+◌}
use seans.Table.{order_by, insert_by}
use seans.Config.Defaults.{defaults}
use seans.Prelude.{String, Option, if◌then◌else◌, ◌++◌}
use seans.App.{Router, base_routers, routers, db_url, main_url}
use seans.Migrations.V006
use seans.Migrations.V006.{
  is_prefix, contains, replace_from, replace_all, replace_some, has_link, rewrite_files,
  rewrite_media, rewrite_links, has_unique_paths, old_endpoint, new_endpoint,
}
use seans.Migrations.V006.Moved.{IsFreeFile, IsFreeMedia}
use seans.Migrations.V006.Links.{upgrade_rewrites, downgrade_restores}
use seans.TaskQueue.{claim_task, next_task, claims_before, claim_row, save_task, extend_lease}
use seans.WorkerApi.{
  with_worker, get_worker, worker_claim, claim_response, worker_manifest, worker_heartbeat,
  worker_complete, get_task, add_files, upload_slots,
}
use seans.Scripts.FakeWorker.{
  turn, claim, deliver, send_manifest, report, heartbeats, heartbeat, finish, complete,
}
use seans.Scripts.FakeWorker.Turn.{IsCompleted, turn-IsCompleted}
use seans.Scripts.UploadMentalist.{Ids, Entry, insert_media, run_in_order, statements}
use seans.Scripts.UploadMentalist.Refused.{only_media_saved}
use seans.Tests.Sample.{env, no_lock, with_tasks, queued_task, pending_file}

abbrev empty_schema : Schema
empty_schema = record { extensions = []; tables = [] }

abbrev after : Schema → Revision → Schema
after s r = get (run (upgrade r) s) s

abbrev first_schema : Schema
first_schema = after empty_schema initial_schema

downgrade-upgrade_example :
    (run (downgrade initial_schema) first_schema ≡ some empty_schema)
    × (is_consistent first_schema.tables ≡ true)
unfolding run apply change extensions_after is_undone is_consistent every is_sound has_target
    points_to find_table find has_column exists is_on_columns alter_table append_index is_free
    has_index
downgrade-upgrade_example =
    downgrade-upgrade initial_schema empty_schema first_schema refl refl refl

abbrev last_schema : Schema
last_schema =
    after (after (after (after first_schema invite_system) add_tmdb_id) seed_invite_key) admin_plans

-- The scripts run one after the other, from an empty database.
all_created :
    map (λ t. t.name) last_schema.tables
    ≡ "invite_keys" ∷ "room_members" ∷ "rooms" ∷ "reviews" ∷ "watch_history" ∷ "library_items"
      ∷ "task_files" ∷ "tasks" ∷ "torrent_releases" ∷ "media_items" ∷ "workers" ∷ "users" ∷ []
unfolding run apply change extensions_after every is_sound has_target points_to find_table find
    has_column exists is_on_columns alter_table append_index is_free has_index append_column
    set_nullable update_where
all_created = refl

-- No table is dropped while another one refers to it.
users_kept : change (Operation.drop_table "users") last_schema.tables ≡ none
unfolding run apply change extensions_after every is_sound has_target points_to find_table find
    has_column exists is_on_columns alter_table append_index is_free has_index append_column
    set_nullable update_where is_unreferenced refers_to_table
users_kept = refl

abbrev old_links : Database
old_links = record (with_tasks (queued_task 10 1 ∷ [])) {
  task_files =
      record (pending_file 30 10) {
        s3_key = some "https://s3.regru.cloud/seans/a.mkv";
        path = "https://s3.regru.cloud/a";
      }
      ∷ pending_file 31 10
      ∷ [];
}

abbrev new_links : Database
new_links = get (V006.upgrade old_links) old_links

moved : map (λ f. f.path) new_links.task_files ≡ "https://s3.buckets.ru/a" ∷ "a.mkv" ∷ []
unfolding rewrite_links rewrite_files rewrite_media has_unique_paths replace_all replace_from
    has_link contains is_prefix update_where exists
moved = refl

upgrade_rewrites_example :
    All (IsFreeFile old_endpoint) new_links.task_files
    × All (IsFreeMedia old_endpoint) new_links.media_items
    × (new_links ≡ record old_links {
      task_files =
          map
            (λ (f : TaskFile). record f {
              s3_key = replace_some old_endpoint new_endpoint f.s3_key;
              path = replace_all old_endpoint new_endpoint f.path;
            })
            old_links.task_files;
      media_items =
          map
            (λ (m : MediaItem). record m {
              poster_url = replace_some old_endpoint new_endpoint m.poster_url;
            })
            old_links.media_items;
    })
    × ((f : TaskFile)
        → IsFreeFile old_endpoint f
        → record f {
          s3_key = replace_some old_endpoint new_endpoint f.s3_key;
          path = replace_all old_endpoint new_endpoint f.path;
        }
          ≡ f)
    × ((m : MediaItem)
        → IsFreeMedia old_endpoint m
        → record m { poster_url = replace_some old_endpoint new_endpoint m.poster_url } ≡ m)
unfolding rewrite_links rewrite_files rewrite_media has_unique_paths replace_all replace_from
    has_link contains is_prefix update_where exists
upgrade_rewrites_example = upgrade_rewrites old_links new_links refl

downgrade_restores_example : V006.downgrade new_links ≡ some old_links
unfolding rewrite_links rewrite_files rewrite_media has_unique_paths replace_all replace_from
    has_link contains is_prefix update_where exists
downgrade_restores_example =
    downgrade_restores old_links new_links ((refl, refl), ((refl, refl), tt)) (refl, tt) refl refl

abbrev clock : ℕ → ℕ
clock n = 100 + n

-- A turn of the fake worker with a task in the queue, and its end without one.
turned : (turn env clock "two" no_lock (λ n. n + 80) (with_tasks (queued_task 10 1 ∷ []))).0 ≡ ok 10
unfolding turn claim deliver send_manifest report heartbeats heartbeat finish complete with_worker
    get_worker worker_claim claim_task next_task claims_before select order_by insert_by claim_row
    save_task claim_response find worker_manifest worker_heartbeat worker_complete get_task
    add_files extend_lease update_where exists upload_slots
turned = refl

turn-IsCompleted_example :
    IsCompleted 10
      (turn env clock "two" no_lock (λ n. n + 80) (with_tasks (queued_task 10 1 ∷ []))).1
    × (t : Task) × (next_task no_lock (queued_task 10 1 ∷ []) ≡ some t)
    × (t.id ≡ 10)
    × (t.status ≡ TaskStatus.queued)
    × (no_lock t.id ≡ false)
turn-IsCompleted_example =
    turn-IsCompleted env clock "two" no_lock (λ n. n + 80) (with_tasks (queued_task 10 1 ∷ [])) 10
      turned

abbrev ids : Ids
ids = record {
  media_item_id = 90;
  user_id = 1;
  task_id = 91;
  library_item_id = 92;
  torrent_release_id = 93;
  file_ids = λ n. n + 94;
}

abbrev pilot : Entry
pilot = record {
  path = "s01e01_Pilot.avi";
  s3_key = "users/1/90/s01e01_Pilot.avi";
  size_bytes = pos 700;
  episode = pos 1;
}

only_media_saved_example :
    insert_media ids 100 old_links ≡ some (run_in_order (statements ids 100 (pilot ∷ [])) old_links)
unfolding exists
only_media_saved_example = only_media_saved ids 100 (pilot ∷ []) old_links refl refl

abbrev deployed : String → Option String
deployed name = if str_eq name "DATABASE_URL" then some defaults.database_url else none

-- The address for the migrations, where only the other one is set.
migrated : main_url deployed none ≡ some defaults.database_url_sync
unfolding main_url db_url replace_all replace_from is_prefix
migrated = refl

-- The check of the bucket is served unless `ENV` says otherwise.
dev_served : routers deployed ≡ base_routers ++ Router.dev ∷ []
unfolding routers
dev_served = refl
