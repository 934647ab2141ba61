-- ===== src/Schema/Roundtrip.antt =====
-- A script followed by the script that undoes it, and what a script of additions keeps.
use seans.Prelude.{true, some, List, [], ◌∷◌, ◌++◌, ◌≡◌, refl, sym, arith, inl, inr, Option-cases}
use seans.Prelude.Options.{◌>>=◌, >>=-some}
use seans.Schema.Operation.{
  create_extension, create_table, create_index, add_column, alter_nullable,
}
use seans.Schema.{Operation, Schema, every, apply, change, run}
use seans.Schema.Consistent.{is_consistent, map_option-some}
use seans.Schema.Kept.{is_addition, keeps_consistent, some-injective}
use seans.Schema.Scripts.{undo, undo_all, is_reversible, all_reversible, is_plain}
use seans.Schema.Undone.{apply-undo}

run-append : (xs ys : List Operation) (s : Schema) → run (xs ++ ys) s ≡ (run xs s >>= run ys)
unfolding run
run-append [] ys s = refl
run-append (o ∷ xs) ys s = elim (Option-cases (apply o s)) [
  | inl e ↦ rw e refl
  | inr (s', e) ↦ rw e (run-append xs ys s')
]

reversible_addition : (o : Operation) (s : Schema) → is_reversible o s ≡ true → is_addition o ≡ true
unfolding is_reversible
reversible_addition (create_extension n) s h = refl
reversible_addition (alter_nullable n cn nullable) s h = refl
reversible_addition (create_table t) s h = refl
reversible_addition (add_column n c) s h = refl
reversible_addition (create_index n k) s h = refl
reversible_addition _ s h = h

plain_reversible : (o : Operation) (s : Schema) → is_plain o ≡ true → is_reversible o s ≡ true
unfolding is_reversible
plain_reversible (create_table t) s h = refl
plain_reversible (add_column n c) s h = refl
plain_reversible (create_index n k) s h = refl
plain_reversible _ s h = absurd (ground arith)

apply-is_consistent :
    (o : Operation) (s s' : Schema)
    → is_addition o ≡ true
    → is_consistent s.tables ≡ true
    → apply o s ≡ some s'
    → is_consistent s'.tables ≡ true
unfolding apply
apply-is_consistent o s s' a h e =
    let (ts', changed, same) = map_option-some _ (change o s.tables) s' e in
    rw (sym same) (keeps_consistent o s.tables ts' a h changed)

pub run-is_consistent :
    (os : List Operation) (s s' : Schema)
    → every is_addition os ≡ true
    → is_consistent s.tables ≡ true
    → run os s ≡ some s'
    → is_consistent s'.tables ≡ true
unfolding run every
run-is_consistent [] s s' a h e = rw (sym (some-injective s s' e)) h
run-is_consistent (o ∷ os) s s' a h e =
    let (t, applied, rest) = >>=-some (apply o s) (run os) s' e in
    run-is_consistent os t s' (ground arith) (apply-is_consistent o s t (ground arith) h applied)
      rest

pub run-undo_all :
    (os : List Operation) (s s' : Schema)
    → is_consistent s.tables ≡ true
    → all_reversible os s ≡ true
    → run os s ≡ some s'
    → run (undo_all os) s' ≡ some s
unfolding run all_reversible
run-undo_all [] s s' h r e = rw (some-injective s s' e) refl
run-undo_all (o ∷ os) s s' h r e =
    let (t, applied, rest) = >>=-some (apply o s) (run os) s' e in
    let now : is_reversible o s ≡ true = ground arith in
    let later : all_reversible os t ≡ true = ground arith in
    let consistent = apply-is_consistent o s t (reversible_addition o s now) h applied in
    let back = run-undo_all os t s' consistent later rest in
    rw (run-append (undo_all os) (undo o ∷ []) s', back, apply-undo o s t h now applied) refl

pub plain-all_reversible :
    (os : List Operation) (s : Schema) → every is_plain os ≡ true → all_reversible os s ≡ true
unfolding every all_reversible
plain-all_reversible [] s h = refl
plain-all_reversible (o ∷ os) s h =
    let now = plain_reversible o s (ground arith) in
    elim (Option-cases (apply o s)) [
      | inl e ↦ rw (now, e) refl
      | inr (t, e) ↦ rw (now, e) (plain-all_reversible os t (ground arith))
    ]

pub step-all_reversible :
    (o : Operation) (os : List Operation) (s t : Schema)
    → is_reversible o s ≡ true
    → apply o s ≡ some t
    → all_reversible os t ≡ true
    → all_reversible (o ∷ os) s ≡ true
unfolding all_reversible
step-all_reversible o os s t now applied later = rw (now, applied) later
