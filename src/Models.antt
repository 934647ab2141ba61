-- ===== src/Models.antt =====
-- The database: one field for each table of app/models, and the tests on a task's status that
-- several components write out as `status.in_([…])`.
mod Accounts
mod Catalogue
mod Downloads
mod Watching
pub use Accounts.*
pub use Catalogue.*
pub use Downloads.*
pub use Watching.*
use seans.Prelude.{Bool, true, false, List}

pub record Database : Type 0 where
  pub users : List User
  pub invite_keys : List InviteKey
  pub workers : List Worker
  pub media_items : List MediaItem
  pub torrent_releases : List TorrentRelease
  pub tasks : List Task
  pub task_files : List TaskFile
  pub library_items : List LibraryItem
  pub reviews : List Review
  pub watch_history : List WatchHistory
  pub rooms : List Room
  pub room_members : List RoomMember

-- `== "queued"`
abbrev pub is_queued : TaskStatus → Bool
is_queued TaskStatus.queued = true
is_queued _ = false

-- `in_(["assigned", "downloading", "uploading"])`: a worker holds the task under a lease.
abbrev pub is_leased : TaskStatus → Bool
is_leased TaskStatus.assigned = true
is_leased TaskStatus.downloading = true
is_leased TaskStatus.uploading = true
is_leased _ = false

-- `in_(["queued", "assigned", "downloading", "uploading"])`
abbrev pub is_active : TaskStatus → Bool
is_active TaskStatus.queued = true
is_active TaskStatus.assigned = true
is_active TaskStatus.downloading = true
is_active TaskStatus.uploading = true
is_active _ = false

-- `in ("queued", "assigned")`
abbrev pub is_cancelable : TaskStatus → Bool
is_cancelable TaskStatus.queued = true
is_cancelable TaskStatus.assigned = true
is_cancelable _ = false

-- `== "uploaded"`
abbrev pub is_uploaded : FileStatus → Bool
is_uploaded FileStatus.uploaded = true
is_uploaded FileStatus.pending = false
