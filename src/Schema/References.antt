-- ===== src/Schema/References.antt =====
-- What foreign keys with a target do not refer to.
use seans.Prelude.{
  String, true, false, not, List, ◌&&◌, ◌≡◌, refl, sym, arith, str_eq, str_eq_iff, Bool-cases, inl,
  inr, Option-cases,
}
use seans.Table.{exists}
use seans.Schema.{
  TableDef, Column, every, refers_to, refers_to_table, has_target, points_to, is_sound, has_table,
}
use seans.Schema.Consistent.{every-weaken, exists-every}
use seans.Schema.Kept.{no_target}

-- A column whose foreign key has its target refers to no table and no column that is not there.
module _ (ts : List TableDef) (n : String) where
  refers_to_no_table :
      (c : Column)
      → has_table n ts ≡ false
      → has_target ts c ≡ true
      → not (refers_to_table n c) ≡ true
  unfolding has_target refers_to_table
  refers_to_no_table c free h = elim (Option-cases c.foreign_key) [
    | inl e ↦ rw e refl
    | inr (fk, e) ↦ elim (Bool-cases (str_eq fk.table n)) [
      | inl same ↦
          let eq : fk.table ≡ n = (str_eq_iff fk.table n).0 same in
          let target : points_to ts fk.table fk.column ≡ true = ground arith in
          absurd (no_target ts fk.table fk.column (rw eq free) target)
      | inr other ↦ rw (e, other) refl
    ]
  ]

  pub refers_to_no_column :
      (cn : String) (c : Column)
      → points_to ts n cn ≡ false
      → has_target ts c ≡ true
      → not (refers_to n cn c) ≡ true
  unfolding has_target refers_to
  refers_to_no_column cn c free h = elim (Option-cases c.foreign_key) [
    | inl e ↦ rw e refl
    | inr (fk, e) ↦ elim (Bool-cases (str_eq fk.table n && str_eq fk.column cn)) [
      | inl same ↦
          let table : fk.table ≡ n = (str_eq_iff fk.table n).0 (ground arith) in
          let column : fk.column ≡ cn = (str_eq_iff fk.column cn).0 (ground arith) in
          let target : points_to ts fk.table fk.column ≡ true = ground arith in
          let there : points_to ts n cn ≡ true = rw (sym table, sym column) target in
          absurd (ground arith)
      | inr other ↦ rw (e, other) refl
    ]
  ]

  pub unreferenced_table :
      (us : List TableDef)
      → has_table n ts ≡ false
      → every (is_sound ts) us ≡ true
      → every (λ t. not (exists (refers_to_table n) t.columns)) us ≡ true
  unfolding is_sound
  unreferenced_table us free h =
      every-weaken (is_sound ts) (λ t. not (exists (refers_to_table n) t.columns))
        (λ t s.
          let sound : every (has_target ts) t.columns ≡ true = ground arith in
          let none_refers =
            every-weaken (has_target ts) (λ c. not (refers_to_table n c))
              (λ c. refers_to_no_table c free) t.columns sound in
          rw (exists-every (refers_to_table n) t.columns none_refers) refl)
        us h

  pub unreferenced_column :
      (cn : String) (us : List TableDef)
      → points_to ts n cn ≡ false
      → every (is_sound ts) us ≡ true
      → every (λ t. not (exists (refers_to n cn) t.columns)) us ≡ true
  unfolding is_sound
  unreferenced_column cn us free h =
      every-weaken (is_sound ts) (λ t. not (exists (refers_to n cn) t.columns))
        (λ t s.
          let sound : every (has_target ts) t.columns ≡ true = ground arith in
          let none_refers =
            every-weaken (has_target ts) (λ c. not (refers_to n cn c))
              (λ c. refers_to_no_column cn c free) t.columns sound in
          rw (exists-every (refers_to n cn) t.columns none_refers) refl)
        us h
