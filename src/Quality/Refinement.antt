-- ===== src/Quality/Refinement.antt =====
-- The readers of a title against the language of their patterns.
use seans.Prelude.{
  ◌≡◌, refl, ◌⊎◌, inl, inr, String, Option, none, some, [], ◌∷◌, chars, Bool-cases, arith,
}
use seans.Regex.{Text, search}
use seans.Regex.Language.{Occurs, search_iff}
use seans.Quality.{
  Table, first_match, resolution_patterns, source_patterns, voiceover_patterns, parse_quality,
  parse_source, parse_voiceover, parse_release_info,
}

-- What the tables promise: the value of the first entry of which a match stands in the title, and
-- nothing where none does.
abbrev pub IsFirst : Table → Text → Option String → Type 0
IsFirst [] title o = o ≡ none
IsFirst ((pattern, value) ∷ rest) title o =
    (Occurs pattern title × (o ≡ some value)) ⊎ (¬ Occurs pattern title × IsFirst rest title o)

first_match-IsFirst : (table : Table) (title : Text) → IsFirst table title (first_match table title)
unfolding first_match
first_match-IsFirst [] title = refl
first_match-IsFirst ((pattern, value) ∷ rest) title = elim (Bool-cases (search pattern title)) [
  | inl hit ↦ rw hit (inl ((search_iff pattern title).0 hit, refl))
  | inr miss ↦ rw miss (
      inr (
        λ o. let hit = (search_iff pattern title).1 o in ground arith,
        first_match-IsFirst rest title,
      ))
]

-- For every title: the quality that `parse_release_info` gives is that of the first pattern of its
-- table that stands somewhere in the title, and none when none of them does; so are the source and
-- the voiceover.
pub parse_release_info-IsFirst :
    (title : String)
    → IsFirst resolution_patterns (chars title) (parse_release_info title).quality
      × IsFirst source_patterns (chars title) (parse_release_info title).source
      × IsFirst voiceover_patterns (chars title) (parse_release_info title).voiceover
unfolding parse_release_info parse_quality parse_source parse_voiceover
parse_release_info-IsFirst title = (
  first_match-IsFirst resolution_patterns (chars title),
  first_match-IsFirst source_patterns (chars title),
  first_match-IsFirst voiceover_patterns (chars title),
)
