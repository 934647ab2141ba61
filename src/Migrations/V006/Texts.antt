-- ===== src/Migrations/V006/Texts.antt =====
-- The replacement of one text by another, where both begin with a character that stands nowhere
-- else in them: no occurrence of either begins inside another.
use Prim.Native.Char.{Char, code}
use text.Mathlib.TextEquality.{Char-path}
use seans.Prelude.{
  ℕ, zero, suc, true, false, not, List, [], ◌∷◌, ◌++◌, ==_iff, ◌≡◌, refl, arith, Bool-cases, inl,
  inr, length,
}
use seans.Schema.{every}
use seans.Regex.{same}
use seans.Migrations.V006.{is_prefix, contains, replace_from}

-- The text without its first characters.
abbrev pub skip : ℕ → List Char → List Char
skip zero cs = cs
skip (suc n) [] = []
skip (suc n) (c ∷ cs) = skip n cs

same_refl : (c : Char) → same c c ≡ true
same_refl c = ground arith

prefix_split : (ps cs : List Char) → is_prefix ps cs ≡ true → ps ++ skip (length ps) cs ≡ cs
unfolding is_prefix
prefix_split [] cs h = refl
prefix_split (p ∷ ps) [] h = absurd (ground arith)
prefix_split (p ∷ ps) (c ∷ cs) h =
    let eq : p ≡ c = Char-path p c ((==_iff (code p) (code c)).0 (ground arith)) in
    rw (eq, prefix_split ps cs (ground arith)) refl

is_prefix-append : (ps cs : List Char) → is_prefix ps (ps ++ cs) ≡ true
unfolding is_prefix
is_prefix-append [] cs = refl
is_prefix-append (p ∷ ps) cs = rw (same_refl p) (is_prefix-append ps cs)

replace_skipped :
    (old new ps cs : List Char)
    → replace_from (length ps) old new (ps ++ cs) ≡ replace_from 0 old new cs
unfolding replace_from
replace_skipped old new [] cs = refl
replace_skipped old new (p ∷ ps) cs = replace_skipped old new ps cs

pub replace_from-absent :
    (old new cs : List Char) → contains old cs ≡ false → replace_from 0 old new cs ≡ cs
unfolding contains replace_from
replace_from-absent old new [] h = refl
replace_from-absent old new (c ∷ cs) h =
    let next : is_prefix old (c ∷ cs) ≡ false = ground arith in
    rw (next, replace_from-absent old new cs (ground arith)) refl

-- No occurrence of a text that begins with `a` begins among characters other than `a`.
contains-append :
    (a : Char) (xs ys cs : List Char)
    → every (λ c. not (same a c)) ys ≡ true
    → contains (a ∷ xs) (ys ++ cs) ≡ contains (a ∷ xs) cs
unfolding contains is_prefix every
contains-append a xs [] cs h = refl
contains-append a xs (b ∷ ys) cs h =
    let other : same a b ≡ false = ground arith in
    rw other (contains-append a xs ys cs (ground arith))

module _ (a : Char) (xs ys : List Char) (once_old : every (λ c. not (same a c)) xs ≡ true)
    (once_new : every (λ c. not (same a c)) ys ≡ true) where
  -- A text without `a` begins the result where it began the text.
  prefix_kept :
      (q cs : List Char)
      → every (λ c. not (same a c)) q ≡ true
      → is_prefix q (replace_from 0 (a ∷ xs) (a ∷ ys) cs) ≡ is_prefix q cs
  unfolding is_prefix replace_from every
  prefix_kept [] cs h = refl
  prefix_kept (d ∷ q) [] h = refl
  prefix_kept (d ∷ q) (c ∷ cs) h = elim (Bool-cases (is_prefix (a ∷ xs) (c ∷ cs))) [
    | inl here ↦
        let first : same a c ≡ true = ground arith in
        let apart : same d a ≡ false = ground arith in
        let apart' : same d c ≡ false = ground arith in rw (here, apart, apart') refl
    | inr next ↦ rw (next, prefix_kept q cs (ground arith)) refl
  ]

  -- No occurrence of the old text is left, if the new one does not begin with it.
  pub contains-replace_from :
      ((cs : List Char) → is_prefix (a ∷ xs) (a ∷ ys ++ cs) ≡ false)
      → (n : ℕ) (cs : List Char) → contains (a ∷ xs) (replace_from n (a ∷ xs) (a ∷ ys) cs) ≡ false
  unfolding contains replace_from is_prefix
  contains-replace_from apart n [] = refl
  contains-replace_from apart (suc n) (c ∷ cs) = contains-replace_from apart n cs
  contains-replace_from apart zero (c ∷ cs) = elim (Bool-cases (is_prefix (a ∷ xs) (c ∷ cs))) [
    | inl here ↦
        let rest = replace_from (length xs) (a ∷ xs) (a ∷ ys) cs in
        let later = contains-replace_from apart (length xs) cs in
        rw (here, apart rest, contains-append a xs ys rest once_new) later
    | inr next ↦ rw (next, prefix_kept xs cs once_old, next) (contains-replace_from apart 0 cs)
  ]

  -- Where the new text did not occur, the replacement the other way restores the text.
  pub replace_from-replace_from :
      (n : ℕ) (cs : List Char)
      → contains (a ∷ ys) cs ≡ false
      → replace_from 0 (a ∷ ys) (a ∷ xs) (replace_from n (a ∷ xs) (a ∷ ys) cs) ≡ skip n cs
  unfolding contains replace_from is_prefix
  replace_from-replace_from zero [] h = refl
  replace_from-replace_from (suc n) [] h = refl
  replace_from-replace_from (suc n) (c ∷ cs) h = replace_from-replace_from n cs (ground arith)
  replace_from-replace_from zero (c ∷ cs) h = elim (Bool-cases (is_prefix (a ∷ xs) (c ∷ cs))) [
    | inl here ↦
        let rest = replace_from (length xs) (a ∷ xs) (a ∷ ys) cs in
        let back = replace_from-replace_from (length xs) cs (ground arith) in
        rw
          (
            here,
            same_refl a,
            is_prefix-append ys rest,
            replace_skipped (a ∷ ys) (a ∷ xs) ys rest,
            back,
          )
          (prefix_split (a ∷ xs) (c ∷ cs) here)
    | inr next ↦
        let other : is_prefix (a ∷ ys) (c ∷ cs) ≡ false = ground arith in
        let back = replace_from-replace_from zero cs (ground arith) in
        rw (next, prefix_kept ys cs once_new, other, back) refl
  ]
