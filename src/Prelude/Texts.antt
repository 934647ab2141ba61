-- ===== src/Prelude/Texts.antt =====
-- Texts put together, as an f-string does, and texts as lists of characters.
use Prim.Native.Char.{Char}
use Prim.Native.String
use Prim.Native.String.{String}
use mathlib.Core.Bool.{Bool, true, false}
use mathlib.Core.Option.{Option, none, some}
use text.Mathlib.TextLemmas.{nil-append, cons-append}
use mathlib.Core.Path.{◌≡◌, refl, ap}
use seans.Prelude.Tests.{if◌then◌else◌}
use mathlib.Core.List.{List, [], ◌∷◌, ◌++◌}

abbrev pub concat : List String → String
concat [] = ""
concat (s ∷ ss) = String.◌++◌ s (concat ss)

abbrev pub chars : String → List Char
chars String.[] = []
chars (String.◌∷◌ c s) = c ∷ chars s

abbrev pub text_of : List Char → String
text_of [] = ""
text_of (c ∷ cs) = String.◌∷◌ c (text_of cs)

-- The first text of a chain `a or b or …` that is there and not empty; the last one is no `Option`.
abbrev pub or_text : List (Option String) → String → String
or_text [] last = last
or_text (none ∷ xs) last = or_text xs last
or_text (some String.[] ∷ xs) last = or_text xs last
or_text (some (String.◌∷◌ c s) ∷ xs) last = String.◌∷◌ c s

-- `bool(s)`
abbrev pub is_truthy : String → Bool
is_truthy String.[] = false
is_truthy (String.◌∷◌ c s) = true

-- `s or None`
abbrev pub or_none : String → Option String
or_none String.[] = none
or_none (String.◌∷◌ c s) = some (String.◌∷◌ c s)

-- `a or b`, where both may be missing.
abbrev pub or_option : Option String → Option String → Option String
or_option none b = b
or_option (some String.[]) b = b
or_option (some (String.◌∷◌ c s)) b = some (String.◌∷◌ c s)

-- Without the characters of a class at the end, and at the start.
abbrev pub rstrip_chars : (Char → Bool) → List Char → List Char
rstrip_chars p [] = []
rstrip_chars p (c ∷ cs) =
    let rest = rstrip_chars p cs in
    elim rest [ [] ↦ if p c then [] else c ∷ [] | ◌∷◌ d ds ↦ c ∷ d ∷ ds ]

abbrev pub lstrip_chars : (Char → Bool) → List Char → List Char
lstrip_chars p [] = []
lstrip_chars p (c ∷ cs) = let rest = lstrip_chars p cs in if p c then rest else c ∷ cs

pub chars-text_of : (cs : List Char) → chars (text_of cs) ≡ cs
chars-text_of [] = refl
chars-text_of (c ∷ cs) = ap (◌∷◌ c) (chars-text_of cs)

pub chars-append : (s t : String) → chars (String.◌++◌ s t) ≡ chars s ++ chars t
chars-append String.[] t = rw (nil-append t) refl
chars-append (String.◌∷◌ c s) t = rw (cons-append c s t) (ap (◌∷◌ c) (chars-append s t))
