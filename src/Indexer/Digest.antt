-- ===== src/Indexer/Digest.antt =====
-- The info hash of a release: what the pattern of a magnet link lets through.
use Prim.Native.Char.{Char, code}
use seans.Prelude.{
  chars-text_of, ℕ, zero, suc, ◌≡◌, refl, sym, ap, ◌⊎◌, inl, inr, String, Bool, true, false, Option,
  none, some, List, [], ◌∷◌, ◌==◌, map, chars, arith, All, All-map_to, length, Bool-cases,
  is_truthy, if◌then◌else◌,
}
use seans.Prelude.Options.{or_else-some}
use seans.Table.{limit_one}
use seans.Regex.{Text, Class, splits, between, union, literal, same}
use seans.Regex.Language.{Lang, IsSplit, splits_sound}
use seans.Indexer.Items.{
  Externals, times, is_hex, lower_hex, btih_here, btih, info_hash_from_magnet, groups_after,
  hash_or,
}

-- `[a-f0-9]`
abbrev pub is_lower_hex : Class
is_lower_hex = union (between b'a' b'f') (between b'0' b'9')

-- Forty hexadecimal digits in lower case.
abbrev pub IsDigest : Text → Type 0
IsDigest cs = (length cs ≡ 40) × All (λ c. is_lower_hex c ≡ true) cs

abbrev pub IsInfoHash : String → Type 0
IsInfoHash s = (s ≡ "") ⊎ IsDigest (chars s)

times-length :
    (n : ℕ) (p : Class) (w : Text) → Lang (times n p) w → (length w ≡ n) × All (λ c. p c ≡ true) w
times-length zero p w e = rw e (refl, tt)
times-length (suc n) p w (u, v, e, (c, one, fits), rest) =
    let (size, all) = times-length n p v rest in rw (e, one) (ap suc size, (fits, all))

lower_if :
    (b : Bool) (c d : Char)
    → is_lower_hex c ≡ true
    → (b ≡ false → is_lower_hex d ≡ true)
    → is_lower_hex (if b then c else d) ≡ true
lower_if true c d h k = h
lower_if false c d h k = k refl

lower_hex-is_lower_hex : (c : Char) → is_hex c ≡ true → is_lower_hex (lower_hex c) ≡ true
lower_hex-is_lower_hex c h =
    let n = code c in
    lower_if (n == b'A') "a" _ refl (λ not_a. lower_if (n == b'B') "b" _ refl (λ not_b.
      lower_if (n == b'C') "c" _ refl (λ not_c. lower_if (n == b'D') "d" _ refl (λ not_d.
        lower_if (n == b'E') "e" _ refl
          (λ not_e. lower_if (n == b'F') "f" c refl (λ not_f. ground arith))))))

lower_digest :
    (cs : Text)
    → All (λ c. is_hex c ≡ true) cs
    → All (λ c. is_lower_hex c ≡ true) (map lower_hex cs)
lower_digest cs h = All-map_to _ _ lower_hex cs lower_hex-is_lower_hex h

length-map {ℓ κ} :
    {A : Type ℓ} {B : Type κ} (f : A → B) (xs : List A) → length (map f xs) ≡ length xs
length-map f [] = refl
length-map f (x ∷ xs) = ap suc (length-map f xs)

limit_one-All {ℓ κ} :
    {A : Type ℓ} (P : A → Type κ) (xs : List A) (x : A) → limit_one xs ≡ some x → All P xs → P x
limit_one-All P [] x e h = absurd (ground arith)
limit_one-All P (y ∷ ys) x e h = let same : y ≡ x = ground arith in rw (sym same) h.0

abbrev IsGroup : Text → Type 0
IsGroup w = (length w ≡ 40) × All (λ c. is_hex c ≡ true) w

groups_after-IsGroup : (o : Option (Text × Text)) → All IsGroup (groups_after o)
groups_after-IsGroup none = tt
groups_after-IsGroup (some prefix) =
    All-map_to (IsSplit (times 40 is_hex) prefix.1) IsGroup _ (splits (times 40 is_hex) prefix.1)
      (λ x h. times-length 40 is_hex x.0 h.1) (splits_sound (times 40 is_hex) prefix.1)

btih-IsGroup : (cs group : Text) → btih cs ≡ some group → IsGroup group
unfolding btih btih_here
btih-IsGroup [] group e = absurd (ground arith)
btih-IsGroup (c ∷ cs) group e =
    or_else-some IsGroup (limit_one (btih_here (c ∷ cs))) (btih cs) group
      (λ found here.
        limit_one-All IsGroup (btih_here (c ∷ cs)) found here
          (groups_after-IsGroup (limit_one (splits (literal same (chars "btih:")) (c ∷ cs)))))
      (btih-IsGroup cs group) e

hash_or-IsInfoHash :
    (lib : Externals) (guid : String) (o : Option Text)
    → ((s : String) → IsInfoHash (lib.sha1 s))
    → ((group : Text) → o ≡ some group → IsGroup group)
    → IsInfoHash (hash_or lib guid o)
hash_or-IsInfoHash lib guid (some group) digests groups =
    let (size, hex) = groups group refl in
    inr (
      rw (chars-text_of (map lower_hex group), length-map lower_hex group)
        (size, lower_digest group hex))
hash_or-IsInfoHash lib guid none digests groups = elim (Bool-cases (is_truthy guid)) [
  | inl there ↦ rw there (digests guid)
  | inr absent ↦ rw absent (inl refl)
]

pub info_hash_from_magnet-IsInfoHash :
    (lib : Externals) (magnet guid : String)
    → ((s : String) → IsInfoHash (lib.sha1 s))
    → IsInfoHash (info_hash_from_magnet lib magnet guid)
unfolding info_hash_from_magnet
info_hash_from_magnet-IsInfoHash lib magnet guid digests =
    hash_or-IsInfoHash lib guid (btih (chars magnet)) digests (btih-IsGroup (chars magnet))
