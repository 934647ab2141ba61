-- ===== src/Migrations/V006/Moved.antt =====
-- Rows whose links were moved to the other endpoint, and back.
use seans.Prelude.{
  String, false, Option, none, some, List, [], ◌∷◌, map, ◌≡◌, refl, ap, All, All-both, Bool-cases,
  inl, inr,
}
use seans.Table.{update_where}
use seans.Table.Laws.{update_where-All, update_where-sets}
use seans.Models.{TaskFile, MediaItem}
use seans.Migrations.V006.{
  replace_all, has_link, has_some_link, replace_some, old_endpoint, new_endpoint, rewrite_files,
  rewrite_media,
}
use seans.Migrations.V006.Replaced.{replace_all-absent, no_old_link, replaced_back}

-- No column of the row holds a link to the endpoint.
abbrev pub IsFreeFile : String → TaskFile → Type 0
IsFreeFile endpoint f =
    (has_some_link endpoint f.s3_key ≡ false) × (has_link endpoint f.path ≡ false)

abbrev pub IsFreeMedia : String → MediaItem → Type 0
IsFreeMedia endpoint m = has_some_link endpoint m.poster_url ≡ false

no_old_some :
    (o : Option String)
    → has_some_link old_endpoint (replace_some old_endpoint new_endpoint o) ≡ false
no_old_some none = refl
no_old_some (some s) = no_old_link s

pub files_rewritten :
    (fs : List TaskFile)
    → All (IsFreeFile old_endpoint) (rewrite_files old_endpoint new_endpoint fs)
unfolding rewrite_files update_where
files_rewritten fs =
    let keys =
      update_where-sets (λ f. has_some_link old_endpoint f.s3_key)
        (λ f. has_some_link old_endpoint f.s3_key ≡ false)
        (λ f. record f { s3_key = replace_some old_endpoint new_endpoint f.s3_key }) fs
        (λ f hit. no_old_some f.s3_key) (λ f miss. miss) in
    All-both _ _ _
      (update_where-All (λ f. has_link old_endpoint f.path)
        (λ f. has_some_link old_endpoint f.s3_key ≡ false)
        (λ f. record f { path = replace_all old_endpoint new_endpoint f.path }) _
        (λ f hit kept. kept) keys)
      (update_where-sets (λ f. has_link old_endpoint f.path)
        (λ f. has_link old_endpoint f.path ≡ false)
        (λ f. record f { path = replace_all old_endpoint new_endpoint f.path }) _
        (λ f hit. no_old_link f.path) (λ f miss. miss))

pub media_rewritten :
    (ms : List MediaItem)
    → All (IsFreeMedia old_endpoint) (rewrite_media old_endpoint new_endpoint ms)
unfolding rewrite_media
media_rewritten ms =
    update_where-sets (λ m. has_some_link old_endpoint m.poster_url) (IsFreeMedia old_endpoint)
      (λ m. record m { poster_url = replace_some old_endpoint new_endpoint m.poster_url }) ms
      (λ m hit. no_old_some m.poster_url) (λ m miss. miss)

-- What a rewriting does to a row.
abbrev pub moved_file : String → String → TaskFile → TaskFile
moved_file old new f = record f {
  s3_key = replace_some old new f.s3_key;
  path = replace_all old new f.path;
}

abbrev pub moved_media : String → String → MediaItem → MediaItem
moved_media old new m = record m { poster_url = replace_some old new m.poster_url }

pub replace_some-absent :
    (old new : String) (o : Option String)
    → has_some_link old o ≡ false
    → replace_some old new o ≡ o
replace_some-absent old new none h = refl
replace_some-absent old new (some s) h = ap some (replace_all-absent old new s h)

pub rewrite_files-map :
    (old new : String) (fs : List TaskFile) → rewrite_files old new fs ≡ map (moved_file old new) fs
unfolding rewrite_files update_where
rewrite_files-map old new [] = refl
rewrite_files-map old new (f ∷ fs) = elim (Bool-cases (has_some_link old f.s3_key)) [
  | inl key ↦ elim (Bool-cases (has_link old f.path)) [
    | inl path ↦ rw (key, path, rewrite_files-map old new fs) refl
    | inr path ↦
        rw (key, path, rewrite_files-map old new fs, replace_all-absent old new f.path path) refl
  ]
  | inr key ↦ elim (Bool-cases (has_link old f.path)) [
    | inl path ↦
        rw (key, path, rewrite_files-map old new fs, replace_some-absent old new f.s3_key key) refl
    | inr path ↦
        rw
          (
            key,
            path,
            rewrite_files-map old new fs,
            replace_some-absent old new f.s3_key key,
            replace_all-absent old new f.path path,
          )
          refl
  ]
]

pub rewrite_media-map :
    (old new : String) (ms : List MediaItem)
    → rewrite_media old new ms ≡ map (moved_media old new) ms
unfolding rewrite_media update_where
rewrite_media-map old new [] = refl
rewrite_media-map old new (m ∷ ms) = elim (Bool-cases (has_some_link old m.poster_url)) [
  | inl link ↦ rw (link, rewrite_media-map old new ms) refl
  | inr link ↦
      let same = replace_some-absent old new m.poster_url link in
      rw (link, rewrite_media-map old new ms, same) refl
]

some_back :
    (o : Option String)
    → has_some_link new_endpoint o ≡ false
    → replace_some new_endpoint old_endpoint (replace_some old_endpoint new_endpoint o) ≡ o
some_back none h = refl
some_back (some s) h = ap some (replaced_back s h)

map_back {ℓ κ} :
    {A : Type ℓ} (P : A → Type κ) (f g : A → A) (xs : List A)
    → ((x : A) → P x → g (f x) ≡ x)
    → All P xs
    → map g (map f xs) ≡ xs
map_back P f g [] back h = refl
map_back P f g (x ∷ xs) back h = rw (back x h.0, map_back P f g xs back h.1) refl

file_back :
    (f : TaskFile)
    → IsFreeFile new_endpoint f
    → moved_file new_endpoint old_endpoint (moved_file old_endpoint new_endpoint f) ≡ f
file_back f h = rw (some_back f.s3_key h.0, replaced_back f.path h.1) refl

media_back :
    (m : MediaItem)
    → IsFreeMedia new_endpoint m
    → moved_media new_endpoint old_endpoint (moved_media old_endpoint new_endpoint m) ≡ m
media_back m h = rw (some_back m.poster_url h) refl

pub files_back :
    (fs : List TaskFile)
    → All (IsFreeFile new_endpoint) fs
    → rewrite_files new_endpoint old_endpoint (rewrite_files old_endpoint new_endpoint fs) ≡ fs
files_back fs h =
    rw (rewrite_files-map old_endpoint new_endpoint, rewrite_files-map new_endpoint old_endpoint)
      (map_back (IsFreeFile new_endpoint) _ _ fs file_back h)

pub all_media_back :
    (ms : List MediaItem)
    → All (IsFreeMedia new_endpoint) ms
    → rewrite_media new_endpoint old_endpoint (rewrite_media old_endpoint new_endpoint ms) ≡ ms
all_media_back ms h =
    rw (rewrite_media-map old_endpoint new_endpoint, rewrite_media-map new_endpoint old_endpoint)
      (map_back (IsFreeMedia new_endpoint) _ _ ms media_back h)
