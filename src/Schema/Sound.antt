-- ===== src/Schema/Sound.antt =====
-- What a change of one table keeps of its soundness.
use seans.Prelude.{
  String, Bool, true, Option, some, List, [], ◌∷◌, ◌≡◌, refl, sym, ap, arith, str_eq, inl, inr,
  Option-cases,
}
use seans.Table.{update_where}
use seans.Schema.{
  TableDef, Column, Key, every, has_column, points_to, has_target, is_on_columns, is_sound,
  alter_table, append_column, set_nullable, append_index,
}
use seans.Schema.Consistent.{
  is_consistent, alter-every, alter-points_to, every-weaken, every-append, exists-append,
}
use seans.Schema.Undo.{
  append_column-some, set_nullable-some, append_index-some, has_column-update_where,
}

pub has_target_mono :
    (ts us : List TableDef)
    → ((m c : String) → points_to ts m c ≡ true → points_to us m c ≡ true)
    → (c : Column) → has_target ts c ≡ true
    → has_target us c ≡ true
unfolding has_target
has_target_mono ts us more c h = elim (Option-cases c.foreign_key) [
  | inl e ↦ rw e refl
  | inr (fk, e) ↦
      let was : points_to ts fk.table fk.column ≡ true = ground arith in
      rw e (more fk.table fk.column was)
]

-- A table stays sound where no target is lost.
pub is_sound_mono :
    (ts us : List TableDef)
    → ((m c : String) → points_to ts m c ≡ true → points_to us m c ≡ true)
    → (t : TableDef) → is_sound ts t ≡ true
    → is_sound us t ≡ true
unfolding is_sound
is_sound_mono ts us more t h =
    let targets =
      every-weaken (has_target ts) (has_target us) (has_target_mono ts us more) t.columns in
    ground (arith, targets)

is_on_columns_mono :
    (t t' : TableDef)
    → ((c : String) → has_column c t ≡ true → has_column c t' ≡ true)
    → (k : Key) → is_on_columns t k ≡ true
    → is_on_columns t' k ≡ true
unfolding is_on_columns
is_on_columns_mono t t' more k h = every-weaken _ _ more k.columns h

-- A change of one table that loses no column and keeps the table sound.
pub alter-is_consistent :
    (n : String) (f : TableDef → Option TableDef)
    → ((t t' : TableDef)
        → f t ≡ some t'
        → (t'.name ≡ t.name) × ((c : String) → has_column c t ≡ true → has_column c t' ≡ true))
    → (ts ts' : List TableDef)
    → ((t t' : TableDef) → is_sound ts' t ≡ true → f t ≡ some t' → is_sound ts' t' ≡ true)
    → is_consistent ts ≡ true
    → alter_table n f ts ≡ some ts'
    → is_consistent ts' ≡ true
unfolding is_consistent
alter-is_consistent n f grows ts ts' keep h e =
    let more : (m c : String) → points_to ts m c ≡ true → points_to ts' m c ≡ true =
      λ m c. alter-points_to n f grows m c ts ts' e in
    let mono = is_sound_mono ts ts' more in
    alter-every n f (is_sound ts) (is_sound ts') mono (λ t t' s. keep t t' (mono t s)) ts ts' h e

parts_sound :
    (ts : List TableDef) (t : TableDef)
    → every (has_target ts) t.columns ≡ true
    → every (is_on_columns t) t.keys ≡ true
    → is_sound ts t ≡ true
unfolding is_sound
parts_sound ts t targets keys = ground arith

pub append_column-grows :
    (c : Column) (t t' : TableDef)
    → append_column c t ≡ some t'
    → (t'.name ≡ t.name) × ((n : String) → has_column n t ≡ true → has_column n t' ≡ true)
unfolding has_column
append_column-grows c t t' e =
    let (free, same) = append_column-some c t t' e in
    rw (sym same) (refl, λ n. exists-append (λ d. str_eq d.name n) t.columns (c ∷ []))

pub append_column-is_sound :
    (ts : List TableDef) (c : Column) (t t' : TableDef)
    → has_target ts c ≡ true
    → is_sound ts t ≡ true
    → append_column c t ≡ some t'
    → is_sound ts t' ≡ true
unfolding is_sound every is_on_columns has_column
append_column-is_sound ts c t t' there h e =
    let (free, same) = append_column-some c t t' e in
    let (_, more) = append_column-grows c t t' e in
    let keys =
      every-weaken (is_on_columns t) (is_on_columns t') (is_on_columns_mono t t' more) t.keys in
    let last = every-append (has_target ts) t.columns (c ∷ []) in
    parts_sound ts t' (rw⁻¹ (ap (λ u. u.columns) same) (ground arith))
      (rw⁻¹ (ap (λ u. u.keys) same) (keys (ground arith)))

pub set_nullable-grows :
    (cn : String) (b : Bool) (t t' : TableDef)
    → set_nullable cn b t ≡ some t'
    → (t'.name ≡ t.name) × ((n : String) → has_column n t ≡ true → has_column n t' ≡ true)
unfolding has_column
set_nullable-grows cn b t t' e =
    let (there, same) = set_nullable-some cn b t t' e in
    rw (sym same) (refl, λ n. has_column-update_where n cn b t.columns)

every-update_where :
    (ts : List TableDef) (cn : String) (b : Bool) (cs : List Column)
    → every (has_target ts) cs ≡ true
    → every
        (has_target ts)
        (update_where (λ c. str_eq c.name cn) (λ c. record c { nullable = b }) cs)
      ≡ true
unfolding every update_where has_target
every-update_where ts cn b [] h = refl
every-update_where ts cn b (c ∷ cs) h = ground (arith, every-update_where ts cn b cs)

pub set_nullable-is_sound :
    (ts : List TableDef) (cn : String) (b : Bool) (t t' : TableDef)
    → is_sound ts t ≡ true
    → set_nullable cn b t ≡ some t'
    → is_sound ts t' ≡ true
unfolding is_sound is_on_columns has_column
set_nullable-is_sound ts cn b t t' h e =
    let (there, same) = set_nullable-some cn b t t' e in
    let (_, more) = set_nullable-grows cn b t t' e in
    let keys =
      every-weaken (is_on_columns t) (is_on_columns t') (is_on_columns_mono t t' more) t.keys in
    let targets = every-update_where ts cn b t.columns (ground arith) in
    parts_sound ts t' (rw⁻¹ (ap (λ u. u.columns) same) targets)
      (rw⁻¹ (ap (λ u. u.keys) same) (keys (ground arith)))

pub append_index-grows :
    (k : Key) (t t' : TableDef)
    → append_index k t ≡ some t'
    → (t'.name ≡ t.name) × ((n : String) → has_column n t ≡ true → has_column n t' ≡ true)
unfolding has_column
append_index-grows k t t' e =
    let (there, same) = append_index-some k t t' e in rw (sym same) (refl, λ n h. h)

pub append_index-is_sound :
    (ts : List TableDef) (k : Key) (t t' : TableDef)
    → is_sound ts t ≡ true
    → append_index k t ≡ some t'
    → is_sound ts t' ≡ true
unfolding is_sound every
append_index-is_sound ts k t t' h e =
    let (there, same) = append_index-some k t t' e in
    let (_, more) = append_index-grows k t t' e in
    let keys =
      every-weaken (is_on_columns t) (is_on_columns t') (is_on_columns_mono t t' more) t.keys in
    let first = is_on_columns_mono t t' more k there in
    let tail = keys (ground arith) in
    parts_sound ts t' (rw⁻¹ (ap (λ u. u.columns) same) (ground arith))
      (rw⁻¹ (ap (λ u. u.keys) same) (ground arith))
