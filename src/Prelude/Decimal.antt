-- ===== src/Prelude/Decimal.antt =====
-- `str(n)` of a Python integer, and the reading that undoes it.
use Prim.Native.Char.{Char, code}
use Prim.Native.Nat.{ℕ, zero, suc, ◌+◌, ◌-◌, ◌*◌, ◌/◌, ◌%◌, ◌≤◌, ◌<◌}
use Prim.Native.String.{String}
use mathlib.Core.Path.{◌≡◌, ◌∙◌, refl, sym, ap}
use mathlib.Core.Logic.{inl, inr}
use mathlib.Core.List.{List, [], ◌∷◌, ◌++◌}
use native.Mathlib.Omega.{arith}
use seans.Prelude.Tests.{ltb, if◌then◌else◌, Bool-cases}
use seans.Prelude.Lists.{length, All, All-append}
use seans.Prelude.Texts.{chars, text_of, chars-text_of}
use seans.Prelude.Int.{ℤ, pos, negsuc}

abbrev pick : List Char → ℕ → Char
pick [] n = "9"
pick (c ∷ cs) zero = c
pick (c ∷ cs) (suc n) = pick cs n

abbrev digit : ℕ → Char
digit = pick (chars "0123456789")

-- Fuel `n` is enough for the digits of `n`, since a tenth of a positive number is less than it.
abbrev pub digits : ℕ → ℕ → List Char
digits zero n = digit n ∷ []
digits (suc fuel) n =
    let before = digits fuel (n / 10) in
    if ltb n 10 then digit n ∷ [] else before ++ digit (n % 10) ∷ []

unfoldable pub str : ℤ → String
str (pos n) = text_of (digits n n)
str (negsuc n) = String.◌∷◌ "-" (text_of (digits (suc n) (suc n)))

-- The number that digits stand for, after those that were read.
abbrev pub value : ℕ → List Char → ℕ
value acc [] = acc
value acc (c ∷ cs) = value (acc * 10 + (code c - b'0')) cs

value-append :
    (acc : ℕ) (cs : List Char) (c : Char)
    → value acc (cs ++ c ∷ []) ≡ value acc cs * 10 + (code c - b'0')
value-append acc [] c = refl
value-append acc (d ∷ cs) c = value-append (acc * 10 + (code d - b'0')) cs c

-- Characters whose codes count up from a number.
abbrev CountsFrom : ℕ → List Char → Type 0
CountsFrom m [] = Unit
CountsFrom m (c ∷ cs) = (code c ≡ m) × CountsFrom (suc m) cs

code-pick :
    (m : ℕ) (cs : List Char) (n : ℕ) → CountsFrom m cs → n < length cs → code (pick cs n) ≡ n + m
code-pick m [] n up h = absurd (omega arith)
code-pick m (c ∷ cs) zero up h = omega (arith, up.0)
code-pick m (c ∷ cs) (suc n) up h =
    let next = code-pick (suc m) cs n up.1 (omega arith) in omega arith

code-digit : (n : ℕ) → n < 10 → code (digit n) ≡ n + b'0'
code-digit n h =
    code-pick b'0' (chars "0123456789") n
      (refl, (refl, (refl, (refl, (refl, (refl, (refl, (refl, (refl, (refl, tt)))))))))) h

value-digits : (fuel n : ℕ) → n ≤ fuel → value 0 (digits fuel n) ≡ n
value-digits zero n h = let small = code-digit n (omega arith) in omega arith
value-digits (suc fuel) n h = elim (Bool-cases (ltb n 10)) [
  | inl short ↦ let small = code-digit n (ground arith) in rw short (omega arith)
  | inr long ↦
      let rest = value-digits fuel (n / 10) (ground arith) in
      let last = code-digit (n % 10) (omega arith) in
      rw (long, value-append 0 (digits fuel (n / 10)) (digit (n % 10)), rest, last) (omega arith)
]

-- Different numbers have different digits.
pub digits-injective : (m n : ℕ) → digits m m ≡ digits n n → m ≡ n
digits-injective m n e =
    sym (value-digits m m (omega arith)) ∙ ap (value 0) e ∙ value-digits n n (omega arith)

-- The characters of a number are digits and the minus, which no letter is.
abbrev pub IsPlain : List Char → Type 0
IsPlain = All (λ c. code c ≤ b'9')

pick-IsPlain : (cs : List Char) (n : ℕ) → IsPlain cs → code (pick cs n) ≤ b'9'
pick-IsPlain [] n h = omega arith
pick-IsPlain (c ∷ cs) zero h = h.0
pick-IsPlain (c ∷ cs) (suc n) h = pick-IsPlain cs n h.1

digit-IsPlain : (n : ℕ) → IsPlain (digit n ∷ [])
digit-IsPlain n = (pick-IsPlain (chars "0123456789") n (ground arith), tt)

digits-IsPlain : (fuel n : ℕ) → IsPlain (digits fuel n)
digits-IsPlain zero n = digit-IsPlain n
digits-IsPlain (suc fuel) n = elim (Bool-cases (ltb n 10)) [
  | inl short ↦ rw short (digit-IsPlain n)
  | inr long ↦ rw long (
      All-append (λ c. code c ≤ b'9') (digits fuel (n / 10)) (digit (n % 10) ∷ [])
        (digits-IsPlain fuel (n / 10)) (digit-IsPlain (n % 10)))
]

pub str-IsPlain : (n : ℤ) → IsPlain (chars (str n))
unfolding str
str-IsPlain (pos n) = rw (chars-text_of (digits n n)) (digits-IsPlain n n)
str-IsPlain (negsuc n) =
    rw (chars-text_of (digits (suc n) (suc n))) (omega arith, digits-IsPlain (suc n) (suc n))
