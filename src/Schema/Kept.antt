-- ===== src/Schema/Kept.antt =====
-- The operations of an upgrade leave no dangling reference.
use seans.Prelude.{
  String, Bool, true, false, not, some, List, ◌∷◌, ◌&&◌, ◌≡◌, sym, arith, str_eq, str_eq_iff,
  Bool-cases, inl, inr, Option-cases,
}
use seans.Schema.Operation.{
  create_extension, drop_extension, create_table, drop_table, create_index, drop_index, add_column,
  drop_column, alter_nullable,
}
use seans.Schema.{
  Operation, change, is_free, TableDef, every, find_table, has_table, points_to, has_target,
  is_sound, alter_table, append_column, set_nullable, append_index,
}
use seans.Schema.Consistent.{
  is_consistent, alter-points_to, points_to-cons, every-weaken, given-some,
}
use seans.Schema.Sound.{
  has_target_mono, is_sound_mono, alter-is_consistent, append_column-grows, append_column-is_sound,
  set_nullable-grows, set_nullable-is_sound, append_index-grows, append_index-is_sound,
}

pub some-injective {ℓ} : {A : Type ℓ} (a b : A) → some a ≡ some b → a ≡ b
some-injective a b e = ground arith

pub no_target :
    (ts : List TableDef) (m c : String) → has_table m ts ≡ false → points_to ts m c ≡ true → ⊥
unfolding points_to
no_target ts m c free h = elim (Option-cases (find_table m ts)) [
  | inl e ↦ ground arith
  | inr (t, e) ↦ ground arith
]

-- The operations that `upgrade` functions have, and `downgrade` functions have not.
abbrev pub is_addition : Operation → Bool
is_addition (create_extension n) = true
is_addition (create_table t) = true
is_addition (add_column n c) = true
is_addition (alter_nullable n cn nullable) = true
is_addition (create_index n k) = true
is_addition _ = false

pub create_table-points_to :
    (t : TableDef) (ts : List TableDef)
    → has_table t.name ts ≡ false
    → (m c : String) → points_to ts m c ≡ true
    → points_to (t ∷ ts) m c ≡ true
create_table-points_to t ts free m c h = elim (Bool-cases (str_eq t.name m)) [
  | inl same ↦
      let eq : t.name ≡ m = (str_eq_iff t.name m).0 same in
      absurd (no_target ts m c (rw (sym eq) free) h)
  | inr other ↦ rw (points_to-cons t ts m c, other) h
]

-- What is true of the tables after any change but the removal of something.
pub keeps_consistent :
    (o : Operation) (ts ts' : List TableDef)
    → is_addition o ≡ true
    → is_consistent ts ≡ true
    → change o ts ≡ some ts'
    → is_consistent ts' ≡ true
unfolding change is_consistent every
keeps_consistent (create_extension n) ts ts' a h e = rw (sym (some-injective ts ts' e)) h
keeps_consistent (drop_extension n) ts ts' a h e = absurd (ground arith)
keeps_consistent (create_table t) ts ts' a h e =
    let (test, same) =
      given-some (not (has_table t.name ts) && is_sound (t ∷ ts) t) (some (t ∷ ts)) ts' e in
    let more = create_table-points_to t ts (ground arith) in
    let old =
      every-weaken (is_sound ts) (is_sound (t ∷ ts)) (is_sound_mono ts (t ∷ ts) more) ts h in
    rw (sym (some-injective (t ∷ ts) ts' same)) (ground arith)
keeps_consistent (drop_table n) ts ts' a h e = absurd (ground arith)
keeps_consistent (add_column n c) ts ts' a h e =
    let (there, altered) =
      given-some (has_target ts c) (alter_table n (append_column c) ts) ts' e in
    let more : (m d : String) → points_to ts m d ≡ true → points_to ts' m d ≡ true =
      λ m d. alter-points_to n (append_column c) (append_column-grows c) m d ts ts' altered in
    let still = has_target_mono ts ts' more c there in
    alter-is_consistent n (append_column c) (append_column-grows c) ts ts'
      (λ t t'. append_column-is_sound ts' c t t' still) h altered
keeps_consistent (drop_column n cn) ts ts' a h e = absurd (ground arith)
keeps_consistent (alter_nullable n cn b) ts ts' a h e =
    alter-is_consistent n (set_nullable cn b) (set_nullable-grows cn b) ts ts'
      (set_nullable-is_sound ts' cn b) h e
keeps_consistent (create_index n k) ts ts' a h e =
    let (free, altered) =
      given-some (is_free k.name ts) (alter_table n (append_index k) ts) ts' e in
    alter-is_consistent n (append_index k) (append_index-grows k) ts ts'
      (append_index-is_sound ts' k) h altered
keeps_consistent (drop_index name n) ts ts' a h e = absurd (ground arith)
