-- ===== src/Migrations/V006.antt =====
-- alembic/versions/006_rewrite_s3_links.py: the links of an old endpoint of S3, in the columns that
-- may hold them. `replace_all` and `contains` are SQL's `replace` and `LIKE '%…%'` for a text that
-- is not empty and has no `%` and no `_`.
pub mod Texts
pub mod Replaced
pub mod Moved
pub mod Links
use Prim.Native.Char.{Char}
use seans.Prelude.{
  ℕ, zero, suc, String, Bool, true, false, not, Option, none, some, List, [], ◌∷◌, ◌++◌, ◌&&◌, ◌||◌,
  ◌==◌, str_eq, chars, text_of, length, map, if◌then◌else◌,
}
use seans.Table.{exists, update_where}
use seans.Models.{Database, TaskFile, MediaItem}
use seans.Schema.{given}
use seans.Regex.{same}

abbrev pub old_endpoint : String
old_endpoint = "https://s3.regru.cloud"

abbrev pub new_endpoint : String
new_endpoint = "https://s3.buckets.ru"

unfoldable pub is_prefix : List Char → List Char → Bool
is_prefix [] cs = true
is_prefix (p ∷ ps) [] = false
is_prefix (p ∷ ps) (c ∷ cs) = same p c && is_prefix ps cs

unfoldable pub contains : List Char → List Char → Bool
unfolding is_prefix
contains p [] = is_prefix p []
contains p (c ∷ cs) = is_prefix p (c ∷ cs) || contains p cs

-- What is still to skip after the first character of an occurrence.
abbrev pub rest_of : List Char → ℕ
rest_of [] = 0
rest_of (p ∷ ps) = length ps

-- From left to right; the first argument counts the characters of an occurrence still to skip.
unfoldable pub replace_from : ℕ → List Char → List Char → List Char → List Char
unfolding is_prefix
replace_from n old new [] = []
replace_from (suc n) old new (c ∷ cs) = replace_from n old new cs
replace_from zero old new (c ∷ cs) =
    let skipped = replace_from (rest_of old) old new cs in
    let kept = replace_from 0 old new cs in
    if is_prefix old (c ∷ cs) then new ++ skipped else c ∷ kept

unfoldable pub replace_all : String → String → String → String
unfolding replace_from
replace_all old new s = text_of (replace_from 0 (chars old) (chars new) (chars s))

unfoldable pub has_link : String → String → Bool
unfolding contains
has_link endpoint s = contains (chars endpoint) (chars s)

-- A null matches no pattern.
abbrev pub has_some_link : String → Option String → Bool
has_some_link endpoint none = false
has_some_link endpoint (some s) = has_link endpoint s

abbrev pub replace_some : String → String → Option String → Option String
replace_some old new none = none
replace_some old new (some s) = some (replace_all old new s)

-- `uq_task_files_task_path`
unfoldable pub has_unique_paths : List TaskFile → Bool
unfolding exists
has_unique_paths [] = true
has_unique_paths (f ∷ fs) =
    not (exists (λ g. g.task_id == f.task_id && str_eq g.path f.path) fs) && has_unique_paths fs

-- The three updates, from one endpoint to the other; the second one may violate the constraint.
unfoldable pub rewrite_files : String → String → List TaskFile → List TaskFile
unfolding replace_all has_link update_where
rewrite_files old new fs =
    let keys =
      update_where (λ f. has_some_link old f.s3_key)
        (λ f. record f { s3_key = replace_some old new f.s3_key }) fs in
    update_where (λ f. has_link old f.path) (λ f. record f { path = replace_all old new f.path })
      keys

unfoldable pub rewrite_media : String → String → List MediaItem → List MediaItem
unfolding replace_all has_link update_where
rewrite_media old new ms =
    update_where (λ m. has_some_link old m.poster_url)
      (λ m. record m { poster_url = replace_some old new m.poster_url }) ms

unfoldable pub rewrite_links : String → String → Database → Option Database
unfolding rewrite_files rewrite_media has_unique_paths
rewrite_links old new db =
    let files = rewrite_files old new db.task_files in
    given (has_unique_paths files)
      (some (record db { task_files = files; media_items = rewrite_media old new db.media_items }))

abbrev pub upgrade : Database → Option Database
upgrade db = rewrite_links old_endpoint new_endpoint db

abbrev pub downgrade : Database → Option Database
downgrade db = rewrite_links new_endpoint old_endpoint db
