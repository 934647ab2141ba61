-- ===== src/Quality.antt =====
-- Quality, source and voiceover read from a release's title (app/services/quality.py): tables of
-- patterns, and the first pattern that the title holds.
pub mod Refinement
use Prim.Native.Char.{Char}
use seans.Prelude.{String, Option, none, some, List, [], ◌∷◌, chars, if◌then◌else◌}
use seans.Regex.{
  Text, Class, Regex, one, seq, either, many, search, union, same, alike, literal, optional,
  is_space,
}

abbrev pub Table : Type 0
Table = List (Regex × String)

-- A pattern with no operator in it, read as it is and under `re.IGNORECASE`.
abbrev exact : String → Regex
exact s = literal same (chars s)

abbrev any_case : String → Regex
any_case s = literal alike (chars s)

abbrev lines : String → Regex
lines height = seq (exact height) (one (union (same "p") (same "P")))

abbrev pub resolution_patterns : Table
resolution_patterns =
    (either (lines "2160") (seq (exact "4") (one (union (same "K") (same "k")))), "2160p")
    ∷ (lines "1080", "1080p")
    ∷ (lines "720", "720p")
    ∷ (lines "480", "480p")
    ∷ []

-- `A-?B`
abbrev dashed : String → String → Regex
dashed a b = seq (any_case a) (seq (optional (any_case "-")) (any_case b))

-- `A(?:Rip)?`
abbrev ripped : String → Regex
ripped a = seq (any_case a) (optional (any_case "Rip"))

abbrev pub source_patterns : Table
source_patterns =
    (dashed "WEB" "DL", "WEB-DL")
    ∷ (dashed "WEB" "Rip", "WEBRip")
    ∷ (either (dashed "Blu" "Ray") (either (any_case "BDRip") (any_case "BRRip")), "BDRip")
    ∷ (ripped "HDTV", "HDTVRip")
    ∷ (ripped "DVD", "DVDRip")
    ∷ (either (ripped "CAM") (either (any_case "TS") (any_case "TC")), "CAM")
    ∷ []

-- `A\s*B`
abbrev spaced : Regex → Regex → Regex
spaced a b = seq a (seq (many is_space) b)

abbrev pub voiceover_patterns : Table
voiceover_patterns =
    (any_case "LostFilm", "LostFilm")
    ∷ (any_case "JASKIER", "JASKIER")
    ∷ (spaced (any_case "HDrezka") (any_case "Studio"), "HDrezka Studio")
    ∷ (any_case "NewStudio", "NewStudio")
    ∷ (spaced (any_case "Кубик") (spaced (any_case "в") (any_case "Кубе")), "Кубик в Кубе")
    ∷ (any_case "ТВЗапись", "ТВЗапись")
    ∷ []

-- The loop that the three functions share.
unfoldable pub first_match : Table → Text → Option String
first_match [] title = none
first_match ((pattern, value) ∷ rest) title =
    let later = first_match rest title in if search pattern title then some value else later

unfoldable pub parse_quality : String → Option String
unfolding first_match
parse_quality title = first_match resolution_patterns (chars title)

unfoldable pub parse_source : String → Option String
unfolding first_match
parse_source title = first_match source_patterns (chars title)

unfoldable pub parse_voiceover : String → Option String
unfolding first_match
parse_voiceover title = first_match voiceover_patterns (chars title)

pub record ReleaseInfo : Type 0 where
  pub quality : Option String
  pub source : Option String
  pub voiceover : Option String

unfoldable pub parse_release_info : String → ReleaseInfo
unfolding parse_quality parse_source parse_voiceover
parse_release_info title = record {
  quality = parse_quality title;
  source = parse_source title;
  voiceover = parse_voiceover title;
}
