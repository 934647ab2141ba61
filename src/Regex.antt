-- ===== src/Regex.antt =====
-- Python's `re`, as far as the program's patterns go: classes of characters, sequence, choice and
-- the greedy repetition of a class, tried in the order in which `re` backtracks.
pub mod Language
use Prim.Native.Char.{Char, code}
use seans.Prelude.{
  ℕ, zero, suc, ◌+◌, ◌-◌, String, Bool, true, false, List, [], ◌∷◌, ◌++◌, ◌&&◌, ◌||◌, map, chars,
  leb, ◌==◌, if◌then◌else◌,
}

abbrev pub Text : Type 0
Text = List Char

abbrev pub Class : Type 0
Class = Char → Bool

pub data Regex : Type 0 where
  one : Class → Regex
  empty : Regex
  seq : Regex → Regex → Regex
  either : Regex → Regex → Regex
  many : Class → Regex

module _ {ℓ κ} {A : Type ℓ} {B : Type κ} where
  unfoldable pub each : (A → List B) → List A → List B
  each f [] = []
  each f (x ∷ xs) = f x ++ each f xs

-- The longest run first.
unfoldable pub runs : Class → Text → List (Text × Text)
runs p [] = ([], []) ∷ []
runs p (c ∷ cs) =
    if p c then map (λ r. (c ∷ r.0, r.1)) (runs p cs) ++ ([], c ∷ cs) ∷ [] else ([], c ∷ cs) ∷ []

-- Each way to match at the start of a text: what was matched, and what is left.
unfoldable pub splits : Regex → Text → List (Text × Text)
unfolding each runs
splits (one p) [] = []
splits (one p) (c ∷ cs) = if p c then (c ∷ [], cs) ∷ [] else []
splits empty cs = ([], cs) ∷ []
splits (seq r s) cs = each (λ x. map (λ y. (x.0 ++ y.0, y.1)) (splits s x.1)) (splits r cs)
splits (either r s) cs = splits r cs ++ splits s cs
splits (many p) cs = runs p cs

abbrev pub is_nonempty {ℓ} : {A : Type ℓ} → List A → Bool
is_nonempty [] = false
is_nonempty (x ∷ xs) = true

-- `re.search(…) is not None`
unfoldable pub search : Regex → Text → Bool
unfolding splits
search r [] = is_nonempty (splits r [])
search r (c ∷ cs) = is_nonempty (splits r (c ∷ cs)) || search r cs

-- `[lo-hi]`
abbrev pub between : ℕ → ℕ → Class
between lo hi c = leb lo (code c) && leb (code c) hi

abbrev pub union : Class → Class → Class
union p q c = p c || q c

-- A character, as it is.
abbrev pub same : Char → Class
same d c = code c == code d

-- The lower case of the letters that the program's patterns hold, Latin and Cyrillic, with the
-- other characters that `re` takes for one of them under `IGNORECASE`.
unfoldable pub fold_case : ℕ → ℕ
fold_case n =
    if leb b'A' n && leb n b'Z'
    then n + 32
    else if leb 0x410 n && leb n 0x42F
    then n + 32
    else if n == 0x130 || n == 0x131
    then b'i'
    else if n == 0x17F
    then b's'
    else if n == 0x212A
    then b'k'
    else if n == 0x1C80
    then 0x432
    else if n == 0x1C83
    then 0x441
    else if n == 0x1C84 || n == 0x1C85
    then 0x442
    else n

-- A character, under `re.IGNORECASE`.
unfoldable pub alike : Char → Class
unfolding fold_case
alike d c = fold_case (code c) == fold_case (code d)

-- A text of characters.
unfoldable pub literal : (Char → Class) → Text → Regex
literal p [] = empty
literal p (d ∷ ds) = seq (one (p d)) (literal p ds)

-- `r?`
abbrev pub optional : Regex → Regex
optional r = either r empty

-- `\s`
unfoldable pub is_space : Class
is_space c =
    let n = code c in
    (leb 9 n && leb n 13)
    || (leb 28 n && leb n 32)
    || n == 0x85
    || n == 0xA0
    || n == 0x1680
    || (leb 0x2000 n && leb n 0x200A)
    || n == 0x2028
    || n == 0x2029
    || n == 0x202F
    || n == 0x205F
    || n == 0x3000
