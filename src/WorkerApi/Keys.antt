-- ===== src/WorkerApi/Keys.antt =====
-- The S3 keys that `worker_manifest` gives out.
use Prim.Native.Char.{code}
use Prim.Native.String
use seans.Prelude.{ℕ, ◌≡◌, refl, String, Bool, false, ◌||◌, arith, ◌==◌}
use text.Mathlib.TextLemmas.{nil-append, cons-append}
use seans.Models.{Task}
use seans.WorkerApi.{last_part, base_name, s3_key_of}

-- `'/' in s`
has_slash : String → Bool
has_slash String.[] = false
has_slash (String.◌∷◌ c s) = code c == b'/' || has_slash s

last_part_no_slash :
    (found s : String)
    → (has_slash s ≡ false → has_slash found ≡ false)
    → has_slash (last_part found s) ≡ false
unfolding last_part has_slash
last_part_no_slash found String.[] h = h refl
last_part_no_slash found (String.◌∷◌ c s) h =
    ground (arith, last_part_no_slash s s, last_part_no_slash found s)

-- The file's part of a key names no directory, whatever path a worker sends.
base_name_no_slash : (path : String) → has_slash (base_name path) ≡ false
unfolding base_name
base_name_no_slash path = last_part_no_slash path path (λ h. h)

last_part-append :
    (found dir name : String)
    → last_part found (String.◌++◌ dir (String.◌++◌ "/" name)) ≡ base_name name
unfolding last_part base_name
last_part-append found String.[] name =
    rw (nil-append (String.◌++◌ "/" name), cons-append, nil-append name)
last_part-append found (String.◌∷◌ c dir) name = rw (cons-append c dir (String.◌++◌ "/" name)) (
    ground (
      arith,
      last_part-append (String.◌++◌ dir (String.◌++◌ "/" name)) dir name,
      last_part-append found dir name,
    ))

base_name-append :
    (dir name : String) → base_name (String.◌++◌ dir (String.◌++◌ "/" name)) ≡ base_name name
unfolding base_name
base_name-append dir name = last_part-append (String.◌++◌ dir (String.◌++◌ "/" name)) dir name

-- Two files of one task in directories `dir` and `dir'` get one key if they have one name.
s3_key_collision :
    (str_uuid : ℕ → String) (task : Task) (dir dir' name : String)
    → s3_key_of str_uuid task (String.◌++◌ dir (String.◌++◌ "/" name))
      ≡ s3_key_of str_uuid task (String.◌++◌ dir' (String.◌++◌ "/" name))
unfolding s3_key_of
s3_key_collision str_uuid task dir dir' name =
    rw (base_name-append dir name, base_name-append dir' name)
