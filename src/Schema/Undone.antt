-- ===== src/Schema/Undone.antt =====
-- A step of an upgrade and the step of the downgrade that takes it back.
use seans.Prelude.{
  String, true, false, not, some, List, [], ◌∷◌, ◌++◌, ◌&&◌, ◌≡◌, refl, sym, arith, str_eq, inl,
  inr, Option-cases,
}
use seans.Table.{exists, select}
use seans.Schema.Operation.{
  create_extension, drop_extension, create_table, drop_table, create_index, drop_index, add_column,
  drop_column, alter_nullable,
}
use seans.Schema.{
  Operation, Schema, TableDef, Column, Key, every, is_named, apply, change, extensions_after,
  refers_to, refers_to_table, is_unreferenced, is_unneeded, remove_table, alter_table, has_target,
  append_column, delete_column, set_nullable, append_index, delete_index, is_free, has_index,
  points_to, is_sound, has_table, find_table, has_column,
}
use seans.Schema.Consistent.{
  is_consistent, given-some, map_option-some, every-weaken, exists-every, every-exists,
  every-append, alter-every, alter-found,
}
use seans.Schema.Undo.{
  select-every, alter-undone, delete_column-append_column, differs, set_nullable-set_nullable,
  delete_index-append_index, str_eq_self, append_column-some,
}
use seans.Schema.Kept.{some-injective}
use seans.Schema.Scripts.{undo, is_reversible}
use seans.Schema.References.{unreferenced_table, unreferenced_column, refers_to_no_column}

not_there :
    (ts : List TableDef) (n cn : String) (t : TableDef)
    → find_table n ts ≡ some t
    → has_column cn t ≡ false
    → points_to ts n cn ≡ false
unfolding points_to
not_there ts n cn t found free = ground arith

append_column-unreferenced :
    (n cn : String) (c : Column) (t t' : TableDef)
    → not (refers_to n cn c) ≡ true
    → not (exists (refers_to n cn) t.columns) ≡ true
    → append_column c t ≡ some t'
    → not (exists (refers_to n cn) t'.columns) ≡ true
unfolding every
append_column-unreferenced n cn c t t' own old e =
    let (_, same) = append_column-some c t t' e in
    let before = every-exists (refers_to n cn) t.columns (ground arith) in
    let last = every-append (λ d. not (refers_to n cn d)) t.columns (c ∷ []) in
    let after = exists-every (refers_to n cn) (t.columns ++ c ∷ []) (ground arith) in
    rw (sym same, after) refl

create_extension-undone :
    (n : String) (s : Schema)
    → is_reversible (create_extension n) s ≡ true
    → is_unneeded n s.tables ≡ true
unfolding is_reversible is_unneeded
create_extension-undone n s r = ground arith

create_table-undone :
    (t : TableDef) (ts : List TableDef)
    → is_consistent ts ≡ true
    → has_table t.name ts ≡ false
    → change (drop_table t.name) (t ∷ ts) ≡ some ts
unfolding change is_consistent is_unreferenced remove_table exists
create_table-undone t ts h free =
    let apart = unreferenced_table ts t.name ts free h in
    let others =
      exists-every (λ u. not (str_eq u.name t.name) && exists (refers_to_table t.name) u.columns) ts
        (every-weaken _ _ (λ u a. ground arith) ts apart) in
    rw (str_eq_self t.name, others) refl

add_column-undone :
    (n : String) (c : Column) (ts ts' : List TableDef)
    → is_consistent ts ≡ true
    → has_target ts c ≡ true
    → alter_table n (append_column c) ts ≡ some ts'
    → change (drop_column n c.name) ts' ≡ some ts
unfolding change is_consistent
add_column-undone n c ts ts' h there altered =
    let (t, t', found, set) = alter-found n (append_column c) ts ts' altered in
    let (free, _) = append_column-some c t t' set in
    let missing : points_to ts n c.name ≡ false = not_there ts n c.name t found free in
    let before = unreferenced_column ts n c.name ts missing h in
    let own = refers_to_no_column ts n c.name c missing there in
    let after =
      alter-every n (append_column c) (λ u. not (exists (refers_to n c.name) u.columns))
        (λ u. not (exists (refers_to n c.name) u.columns)) (λ u a. a)
        (λ u u'. append_column-unreferenced n c.name c u u' own) ts ts' before altered in
    let test = exists-every (λ u. exists (refers_to n c.name) u.columns) ts' after in
    rw
      (
        test,
        alter-undone n (append_column c) (delete_column c.name) (is_sound ts)
            (delete_column-append_column ts c) ts ts' h altered,
      )
      refl

create_index-undone :
    (n m : String) (k : Key) (ts ts' : List TableDef)
    → k.name ≡ some m
    → is_free k.name ts ≡ true
    → alter_table n (append_index k) ts ≡ some ts'
    → alter_table n (delete_index m) ts' ≡ some ts
unfolding is_free
create_index-undone n m k ts ts' named free altered =
    let unused : not (exists (has_index m) ts) ≡ true = ground arith in
    let is_its : is_named m k ≡ true = rw named (str_eq_self m) in
    alter-undone n (append_index k) (delete_index m) (λ t. not (has_index m t))
      (λ t t' f. delete_index-append_index m k t t' is_its f) ts ts'
      (every-exists (has_index m) ts (ground arith)) altered

change-undo :
    (o : Operation) (s : Schema) (ts' : List TableDef)
    → is_consistent s.tables ≡ true
    → is_reversible o s ≡ true
    → change o s.tables ≡ some ts'
    → change (undo o) ts' ≡ some s.tables
unfolding change is_consistent is_reversible is_free
change-undo (create_extension n) s ts' h r e =
    rw (sym (some-injective s.tables ts' e), create_extension-undone n s r) refl
change-undo (drop_extension n) s ts' h r e = absurd (ground arith)
change-undo (create_table t) s ts' h r e =
    let (test, same) =
      given-some (not (has_table t.name s.tables) && is_sound (t ∷ s.tables) t)
        (some (t ∷ s.tables)) ts' e in
    rw (sym (some-injective (t ∷ s.tables) ts' same))
      (create_table-undone t s.tables h (ground arith))
change-undo (drop_table n) s ts' h r e = absurd (ground arith)
change-undo (add_column n c) s ts' h r e =
    let (there, altered) =
      given-some (has_target s.tables c) (alter_table n (append_column c) s.tables) ts' e in
    add_column-undone n c s.tables ts' h there altered
change-undo (drop_column n cn) s ts' h r e = absurd (ground arith)
change-undo (alter_nullable n cn b) s ts' h r e =
    alter-undone n (set_nullable cn b) (set_nullable cn (not b)) (differs cn b)
      (set_nullable-set_nullable cn b) s.tables ts' r e
change-undo (create_index n k) s ts' h r e =
    let (free, altered) =
      given-some (is_free k.name s.tables) (alter_table n (append_index k) s.tables) ts' e in
    elim (Option-cases k.name) [
      | inl unnamed ↦ absurd (ground arith)
      | inr (m, named) ↦ rw named (create_index-undone n m k s.tables ts' named free altered)
    ]
change-undo (drop_index name n) s ts' h r e = absurd (ground arith)

-- The extensions after an operation that can be undone.
extensions_after-undo :
    (o : Operation) (s : Schema)
    → is_reversible o s ≡ true
    → extensions_after (undo o) (extensions_after o s.extensions) ≡ s.extensions
unfolding extensions_after is_reversible select
extensions_after-undo (create_extension n) s r =
    let new : exists (str_eq n) s.extensions ≡ false = ground arith in
    let kept =
      select-every (λ m. not (str_eq n m)) s.extensions
        (every-exists (str_eq n) s.extensions new) in
    rw (new, str_eq_self n, kept) refl
extensions_after-undo (drop_extension n) s r = absurd (ground arith)
extensions_after-undo (create_table t) s r = refl
extensions_after-undo (drop_table n) s r = absurd (ground arith)
extensions_after-undo (add_column n c) s r = refl
extensions_after-undo (drop_column n cn) s r = absurd (ground arith)
extensions_after-undo (alter_nullable n cn b) s r = refl
extensions_after-undo (create_index n k) s r = refl
extensions_after-undo (drop_index name n) s r = absurd (ground arith)

pub apply-undo :
    (o : Operation) (s s' : Schema)
    → is_consistent s.tables ≡ true
    → is_reversible o s ≡ true
    → apply o s ≡ some s'
    → apply (undo o) s' ≡ some s
unfolding apply
apply-undo o s s' h r e =
    let (ts', changed, same) = map_option-some _ (change o s.tables) s' e in
    let back = change-undo o s ts' h r changed in
    rw (sym same, back, extensions_after-undo o s r) refl
