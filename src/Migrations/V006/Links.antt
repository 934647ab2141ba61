-- ===== src/Migrations/V006/Links.antt =====
-- The links of the database before and after the upgrade and the downgrade.
use seans.Prelude.{String, true, some, ◌≡◌, refl, sym, ap, ◌∙◌, All, map}
use seans.Models.{Database, TaskFile, MediaItem}
use seans.Schema.Consistent.{given-some}
use seans.Migrations.V006.{
  old_endpoint, new_endpoint, replace_all, replace_some, rewrite_files, rewrite_media,
  rewrite_links, has_unique_paths, upgrade, downgrade,
}
use seans.Schema.Kept.{some-injective}
use seans.Migrations.V006.Replaced.{replace_all-absent}
use seans.Migrations.V006.Moved.{
  IsFreeFile, IsFreeMedia, files_rewritten, media_rewritten, files_back, all_media_back, moved_file,
  moved_media, rewrite_files-map, rewrite_media-map, replace_some-absent,
}

-- The database with the columns rewritten, which `rewrite_links` gives where it gives one.
rewritten : String → String → Database → Database
rewritten old new db = record db {
  task_files = rewrite_files old new db.task_files;
  media_items = rewrite_media old new db.media_items;
}

rewrite_links-some :
    (old new : String) (db db' : Database)
    → rewrite_links old new db ≡ some db'
    → rewritten old new db ≡ db'
unfolding rewrite_links rewritten
rewrite_links-some old new db db' e =
    let (_, made) =
      given-some (has_unique_paths (rewrite_files old new db.task_files))
        (some (rewritten old new db)) db' e in
    some-injective (rewritten old new db) db' made

rewrite_links_unique :
    (old new : String) (db : Database)
    → has_unique_paths (rewrite_files old new db.task_files) ≡ true
    → rewrite_links old new db ≡ some (rewritten old new db)
unfolding rewrite_links rewritten
rewrite_links_unique old new db h = rw h refl

rewritten_back :
    (db : Database)
    → All (IsFreeFile new_endpoint) db.task_files
    → All (IsFreeMedia new_endpoint) db.media_items
    → rewritten new_endpoint old_endpoint (rewritten old_endpoint new_endpoint db) ≡ db
unfolding rewritten
rewritten_back db files media =
    rw (files_back db.task_files files, all_media_back db.media_items media) refl

-- What `replace` leaves of a row that has no link is the row.
unlinked_file :
    (f : TaskFile) → IsFreeFile old_endpoint f → moved_file old_endpoint new_endpoint f ≡ f
unlinked_file f (key, path) =
    rw
      (
        replace_some-absent old_endpoint new_endpoint f.s3_key key,
        replace_all-absent old_endpoint new_endpoint f.path path,
      )
      refl

unlinked_media :
    (m : MediaItem) → IsFreeMedia old_endpoint m → moved_media old_endpoint new_endpoint m ≡ m
unlinked_media m h = rw (replace_some-absent old_endpoint new_endpoint m.poster_url h) refl

-- After an upgrade that is not refused, no key or path of a file and no poster holds a link to the
-- old endpoint. The files and the media are those that were there, in their order, each with the new
-- endpoint for the old one in these columns, which leaves a row without such a link as it was; and
-- nothing else of the database has changed.
pub upgrade_rewrites :
    (db db' : Database)
    → upgrade db ≡ some db'
    → All (IsFreeFile old_endpoint) db'.task_files
      × All (IsFreeMedia old_endpoint) db'.media_items
      × (db' ≡ record db {
        task_files =
            map
              (λ (f : TaskFile). record f {
                s3_key = replace_some old_endpoint new_endpoint f.s3_key;
                path = replace_all old_endpoint new_endpoint f.path;
              })
              db.task_files;
        media_items =
            map
              (λ (m : MediaItem). record m {
                poster_url = replace_some old_endpoint new_endpoint m.poster_url;
              })
              db.media_items;
      })
      × ((f : TaskFile)
          → IsFreeFile old_endpoint f
          → record f {
            s3_key = replace_some old_endpoint new_endpoint f.s3_key;
            path = replace_all old_endpoint new_endpoint f.path;
          }
            ≡ f)
      × ((m : MediaItem)
          → IsFreeMedia old_endpoint m
          → record m { poster_url = replace_some old_endpoint new_endpoint m.poster_url } ≡ m)
unfolding rewritten
upgrade_rewrites db db' e = rw (sym (rewrite_links-some old_endpoint new_endpoint db db' e)) (
  files_rewritten db.task_files,
  media_rewritten db.media_items,
  rw
      (
        rewrite_files-map old_endpoint new_endpoint db.task_files,
        rewrite_media-map old_endpoint new_endpoint db.media_items,
      )
      refl,
  unlinked_file,
  unlinked_media,
)

-- The downgrade restores the database that the upgrade changed, if no key, path or poster had held
-- a link to the new endpoint and no task had two files of one path.
pub downgrade_restores :
    (db db' : Database)
    → All (IsFreeFile new_endpoint) db.task_files
    → All (IsFreeMedia new_endpoint) db.media_items
    → has_unique_paths db.task_files ≡ true
    → upgrade db ≡ some db'
    → downgrade db' ≡ some db
unfolding rewritten
downgrade_restores db db' files media free e =
    let unique : has_unique_paths (
          rewrite_files new_endpoint old_endpoint
            (rewrite_files old_endpoint new_endpoint db.task_files))
        ≡ true =
      rw (files_back db.task_files files) free in
    let down =
      rewrite_links_unique new_endpoint old_endpoint (rewritten old_endpoint new_endpoint db)
        unique in
    rw (sym (rewrite_links-some old_endpoint new_endpoint db db' e))
      (down ∙ ap some (rewritten_back db files media))
