-- ===== src/Indexer/Size.antt =====
-- `parse_size_name`: a size such as "11.81 GB" in bytes.
use Prim.Native.Char.{Char, code}
use seans.Prelude.{
  ℕ, ◌-◌, ◌*◌, String, Bool, true, false, Option, none, some, List, [], ◌∷◌, ◌&&◌, map, chars, leb,
  ◌==◌, if◌then◌else◌,
}
use seans.Prelude.Options.{◌>>=◌}
use seans.Table.{limit_one}
use seans.Regex.{
  Text, Regex, one, seq, many, each, splits, between, union, same, alike, optional, is_space,
}

abbrev kilo : ℕ
kilo = 1024

-- `_SIZE_UNITS`
abbrev pub size_units : List (String × ℕ)
size_units =
    ("B", 1)
    ∷ ("KB", kilo)
    ∷ ("KIB", kilo)
    ∷ ("MB", kilo * kilo)
    ∷ ("MIB", kilo * kilo)
    ∷ ("GB", kilo * kilo * kilo)
    ∷ ("GIB", kilo * kilo * kilo)
    ∷ ("TB", kilo * kilo * kilo * kilo)
    ∷ ("TIB", kilo * kilo * kilo * kilo)
    ∷ []

-- `[0-9]+`
abbrev digits : Regex
digits = seq (one (between b'0' b'9')) (many (between b'0' b'9'))

-- `[0-9]+(?:[.,][0-9]+)?`
abbrev size_number : Regex
size_number = seq digits (optional (seq (one (union (same ".") (same ","))) digits))

-- `[KMGT]?I?B`
abbrev size_unit : Regex
size_unit =
    seq (optional (one (union (alike "K") (union (alike "M") (union (alike "G") (alike "T"))))))
      (seq (optional (one (alike "I"))) (one (alike "B")))

-- Nothing is left but spaces: `\s*$`.
abbrev is_end : Text → List (Text × Text) → List (Text × Text)
is_end rest found =
    let ends = each (λ x. elim x.1 [ [] ↦ found | ◌∷◌ c cs ↦ [] ]) (splits (many is_space) rest) in
    ends

-- The groups of each match of `_SIZE_RE`, in the order in which `re` finds them.
unfoldable pub size_groups : Text → List (Text × Text)
unfolding splits each
size_groups cs =
    each
      (λ a.
        each
          (λ b.
            each (λ c. each (λ d. is_end d.1 ((b.0, d.0) ∷ [])) (splits size_unit c.1))
              (splits (many is_space) b.1))
          (splits size_number a.1))
      (splits (many is_space) cs)

-- `str.upper` on the characters that the group of the unit may hold: the letters, and those that
-- `re` takes for one of them, of which `upper` changes the dotless i alone.
abbrev pub upper : Char → ℕ
upper c =
    let n = code c in if leb b'a' n && leb n b'z' then n - 32 else if n == 0x131 then b'I' else n

abbrev pub is_same : List ℕ → List ℕ → Bool
is_same [] [] = true
is_same [] (n ∷ ns) = false
is_same (m ∷ ms) [] = false
is_same (m ∷ ms) (n ∷ ns) = m == n && is_same ms ns

-- `_SIZE_UNITS[unit]`; `none` is its `KeyError`.
unfoldable pub unit_size : List ℕ → List (String × ℕ) → Option ℕ
unit_size unit [] = none
unit_size unit ((name, n) ∷ rest) =
    let later = unit_size unit rest in
    if is_same (map code (chars name)) unit then some n else later

abbrev pub comma_to_point : Text → Text
comma_to_point [] = []
comma_to_point (c ∷ cs) = (if code c == b',' then "." else c) ∷ comma_to_point cs

-- `scaled t n` is `int(float(t) * n)`, `none` if the product is infinite. The result is `none` where
-- the function raises.
unfoldable pub parse_size_name : (Text → ℕ → Option ℕ) → Option String → Option ℕ
unfolding size_groups unit_size
parse_size_name scaled none = some 0
parse_size_name scaled (some size_name) = elim (limit_one (size_groups (chars size_name))) [
  | none ↦ some 0
  | some groups ↦ do
    n ← unit_size (map upper groups.1) size_units
    scaled (comma_to_point groups.0) n
]
