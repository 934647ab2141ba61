-- ===== src/Indexer/Items.antt =====
-- What an item of an answer becomes: a `Release`. A field that is absent or null is `none`; one of
-- another JSON type is not modelled.
use Prim.Native.Char.{Char, code}
use text.Mathlib.Text.{starts_with}
use seans.Prelude.{
  ℕ, zero, suc, String, Option, none, some, List, [], ◌∷◌, map, chars, text_of, is_truthy, or_text,
  or_none, ◌==◌, if◌then◌else◌,
}
use seans.Prelude.Int.{or_zero, ℤ, pos, ◌-ℤ◌}
use seans.Prelude.Options.{◌>>=◌, or_else, get}
use seans.Table.{limit_one}
use seans.Regex.{Text, Class, Regex, empty, one, seq, splits, between, union, same, literal}
use seans.Quality.{parse_release_info}
use seans.Indexer.Size.{parse_size_name}

-- `hashlib.sha1(guid.encode()).hexdigest()`, and `int(float(text) * unit)`, `none` if that raises.
pub record Externals : Type 0 where
  pub sha1 : String → String
  pub scaled : Text → ℕ → Option ℕ

pub record Release : Type 0 where
  pub title : String
  pub tracker : String
  pub info_hash : String
  pub size_bytes : ℤ
  pub seeders : ℤ
  pub leechers : ℤ
  pub quality : Option String
  pub voiceover : Option String
  pub magnet : Option String
  pub source : String

-- `Size`: a text such as "1.2 GB", or a number of bytes.
pub data SizeField : Type 0 where
  named : String → SizeField
  number : ℤ → SizeField

-- The keys of both spellings; `upper_` stands before those that start with a capital.
pub record ExternalItem : Type 0 where
  pub title : Option String
  pub upper_title : Option String
  pub magnet : Option String
  pub magnet_uri : Option String
  pub seeders : Option ℤ
  pub upper_seeders : Option ℤ
  pub peers : Option ℤ
  pub upper_peers : Option ℤ
  pub tracker : Option String
  pub upper_tracker : Option String
  pub guid : Option String
  pub upper_guid : Option String
  pub size_name : Option String
  pub upper_size : Option SizeField

-- The title may be there and be `null`.
pub record LocalItem : Type 0 where
  pub title : Option (Option String)
  pub magnet_uri : Option String
  pub link : Option String
  pub size : Option SizeField
  pub tracker : Option String
  pub guid : Option String
  pub seeders : Option ℤ
  pub peers : Option ℤ

-- `[a-fA-F0-9]`
abbrev pub is_hex : Class
is_hex = union (between b'a' b'f') (union (between b'A' b'F') (between b'0' b'9'))

-- `p{n}`
abbrev pub times : ℕ → Class → Regex
times zero p = empty
times (suc n) p = seq (one p) (times n p)

abbrev pub groups_after : Option (Text × Text) → List Text
groups_after none = []
groups_after (some prefix) = map (λ x. x.0) (splits (times 40 is_hex) prefix.1)

-- The group of `btih:([a-fA-F0-9]{40})`, where the pattern is matched at the start of the text.
unfoldable pub btih_here : Text → List Text
unfolding splits
btih_here cs = groups_after (limit_one (splits (literal same (chars "btih:")) cs))

-- The group of the first match of `_BTIF_RE.search`.
unfoldable pub btih : Text → Option Text
unfolding btih_here
btih [] = none
btih (c ∷ cs) = or_else (limit_one (btih_here (c ∷ cs))) (btih cs)

-- `str.lower` on a hexadecimal digit.
abbrev pub lower_hex : Char → Char
lower_hex c =
    let n = code c in
    if n == b'A'
    then "a"
    else if n == b'B'
    then "b"
    else if n == b'C'
    then "c"
    else if n == b'D'
    then "d"
    else if n == b'E'
    then "e"
    else if n == b'F'
    then "f"
    else c

-- The hash of the magnet link, if it has one, and else the guid's.
abbrev pub hash_or : Externals → String → Option Text → String
hash_or lib guid none = if is_truthy guid then lib.sha1 guid else ""
hash_or lib guid (some group) = text_of (map lower_hex group)

unfoldable pub info_hash_from_magnet : Externals → String → String → String
unfolding btih
info_hash_from_magnet lib magnet guid = hash_or lib guid (btih (chars magnet))

-- `str(…)` of a number has no unit, so it is no size, like a size that is not there.
abbrev pub size_text : Option SizeField → String
size_text none = ""
size_text (some (named s)) = s
size_text (some (number n)) = ""

-- `magnet` if it is a magnet link.
abbrev pub if_magnet : String → String
if_magnet magnet = if starts_with magnet "magnet:" then magnet else ""

-- The `Release` of an item, given its size.
abbrev pub external_release : Externals → ExternalItem → ℕ → Release
external_release lib item size_bytes =
    let title = or_text (item.title ∷ item.upper_title ∷ []) "" in
    let parsed = parse_release_info title in
    let magnet = if_magnet (or_text (item.magnet ∷ item.magnet_uri ∷ []) "") in
    record {
      title = title;
      tracker = or_text (item.tracker ∷ item.upper_tracker ∷ []) "unknown";
      info_hash = info_hash_from_magnet lib magnet (or_text (item.guid ∷ item.upper_guid ∷ []) "");
      size_bytes = pos size_bytes;
      seeders = or_zero (item.seeders ∷ item.upper_seeders ∷ []);
      leechers = or_zero (item.peers ∷ item.upper_peers ∷ []);
      quality = parsed.quality;
      voiceover = parsed.voiceover;
      magnet = or_none magnet;
      source = "jacred";
    }

-- `parse_size_name(item.get("size_name") or item.get("Size"))`
abbrev pub external_size : Externals → ExternalItem → Option ℕ
external_size lib item =
    parse_size_name lib.scaled (some (or_text (item.size_name ∷ []) (size_text item.upper_size)))

unfoldable pub map_external_item : Externals → ExternalItem → Option Release
unfolding info_hash_from_magnet parse_release_info parse_size_name
map_external_item lib item =
    external_size lib item >>= λ size_bytes. some (external_release lib item size_bytes)

-- `parse_size_name(size_raw) if isinstance(size_raw, str) else int(size_raw or 0)`
abbrev pub local_size : Externals → Option SizeField → Option ℤ
local_size lib none = some (pos 0)
local_size lib (some (number n)) = some n
local_size lib (some (named s)) = do n ← parse_size_name lib.scaled (some s); some (pos n)

-- `item.get("Title", "")`; `parse_release_info` raises at a null.
abbrev pub local_title : LocalItem → Option String
local_title item = get item.title (some "")

abbrev pub local_release : Externals → LocalItem → String → ℤ → Release
local_release lib item title size_bytes =
    let parsed = parse_release_info title in
    let magnet = or_text (item.magnet_uri ∷ item.link ∷ []) "" in
    record {
      title = title;
      tracker = get item.tracker "unknown";
      info_hash = info_hash_from_magnet lib magnet (get item.guid "");
      size_bytes = size_bytes;
      seeders = or_zero (item.seeders ∷ []);
      leechers = or_zero (item.peers ∷ []) -ℤ or_zero (item.seeders ∷ []);
      quality = parsed.quality;
      voiceover = parsed.voiceover;
      magnet = if starts_with magnet "magnet:" then some magnet else none;
      source = "jacred_local";
    }

unfoldable pub map_local_item : Externals → LocalItem → Option Release
unfolding info_hash_from_magnet parse_release_info parse_size_name ◌-ℤ◌
map_local_item lib item = do
  title ← local_title item
  size_bytes ← local_size lib item.size
  some (local_release lib item title size_bytes)
