-- ===== src/Migrations/Reverted.antt =====
-- The scripts of alembic/versions that change the schema, up and down.
use seans.Prelude.{true, false, some, List, [], str_eq, inl, inr, ◌≡◌, refl, arith, ◌∷◌}
use seans.Prelude.{Option-cases}
use seans.Table.{exists}
use seans.Migrations.V001
use seans.Schema.Operation.{create_extension, alter_nullable}
use seans.Schema.{Operation, Schema, run, every, apply, change, extensions_after}
use seans.Schema.Consistent.{is_consistent}
use seans.Schema.Scripts.{all_reversible, is_reversible}
use seans.Schema.Roundtrip.{
  run-undo_all, run-is_consistent, plain-all_reversible, step-all_reversible,
}
use seans.Migrations.{Revision, upgrade, downgrade, is_undone}
use seans.Migrations.Revision.{
  initial_schema, invite_system, add_tmdb_id, seed_invite_key, admin_plans,
}

-- What the first upgrade does after it created the extensions.
abbrev tables_of_first : List Operation
tables_of_first = elim V001.upgrade [ [] ↦ [] | ◌∷◌ o os ↦ elim os [ [] ↦ [] | ◌∷◌ p ps ↦ ps ] ]

all_reversible-upgrade :
    (r : Revision) (s : Schema) → is_undone r s ≡ true → all_reversible (upgrade r) s ≡ true
unfolding is_undone every is_reversible exists apply change extensions_after all_reversible
all_reversible-upgrade initial_schema s h =
    let citext : exists (str_eq "citext") s.extensions ≡ false = ground arith in
    let pgcrypto : exists (str_eq "pgcrypto") s.extensions ≡ false = ground arith in
    let with_citext = record s { extensions = "citext" ∷ s.extensions } in
    let with_both = record s { extensions = "pgcrypto" ∷ "citext" ∷ s.extensions } in
    step-all_reversible (create_extension "citext") (create_extension "pgcrypto" ∷ tables_of_first)
      s with_citext (ground arith) (rw citext refl)
      (step-all_reversible (create_extension "pgcrypto") tables_of_first with_citext with_both
        (ground arith) (rw pgcrypto refl) (plain-all_reversible tables_of_first with_both refl))
all_reversible-upgrade invite_system s h = plain-all_reversible (upgrade invite_system) s refl
all_reversible-upgrade add_tmdb_id s h = plain-all_reversible (upgrade add_tmdb_id) s refl
all_reversible-upgrade seed_invite_key s h =
    elim (Option-cases (apply (alter_nullable "invite_keys" "created_by" true) s)) [
      | inl e ↦ rw (h, e) refl
      | inr (t, e) ↦ rw (h, e) refl
    ]
all_reversible-upgrade admin_plans s h = plain-all_reversible (upgrade admin_plans) s refl

reverted :
    (r : Revision) (s s' : Schema)
    → is_consistent s.tables ≡ true
    → is_undone r s ≡ true
    → run (upgrade r) s ≡ some s'
    → run (downgrade r) s' ≡ some s
reverted initial_schema s s' h u e =
    run-undo_all (upgrade initial_schema) s s' h (all_reversible-upgrade initial_schema s u) e
reverted invite_system s s' h u e =
    run-undo_all (upgrade invite_system) s s' h (all_reversible-upgrade invite_system s u) e
reverted add_tmdb_id s s' h u e =
    run-undo_all (upgrade add_tmdb_id) s s' h (all_reversible-upgrade add_tmdb_id s u) e
reverted seed_invite_key s s' h u e =
    run-undo_all (upgrade seed_invite_key) s s' h (all_reversible-upgrade seed_invite_key s u) e
reverted admin_plans s s' h u e =
    run-undo_all (upgrade admin_plans) s s' h (all_reversible-upgrade admin_plans s u) e

upgrade-is_consistent :
    (r : Revision) (s s' : Schema)
    → is_consistent s.tables ≡ true
    → run (upgrade r) s ≡ some s'
    → is_consistent s'.tables ≡ true
unfolding every
upgrade-is_consistent initial_schema s s' = run-is_consistent (upgrade initial_schema) s s' refl
upgrade-is_consistent invite_system s s' = run-is_consistent (upgrade invite_system) s s' refl
upgrade-is_consistent add_tmdb_id s s' = run-is_consistent (upgrade add_tmdb_id) s s' refl
upgrade-is_consistent seed_invite_key s s' = run-is_consistent (upgrade seed_invite_key) s s' refl
upgrade-is_consistent admin_plans s s' = run-is_consistent (upgrade admin_plans) s s' refl

-- Each upgrade keeps the schema without dangling references (every foreign key refers to a column
-- that is there, every constraint and index stands on columns of its table), and its downgrade
-- restores the schema that was there before, if that had no dangling references either, had
-- neither extension and no column of the type `citext` before the first upgrade, and no column
-- `created_by` that takes nulls before the fourth.
pub downgrade-upgrade :
    (r : Revision) (s s' : Schema)
    → is_consistent s.tables ≡ true
    → is_undone r s ≡ true
    → run (upgrade r) s ≡ some s'
    → (run (downgrade r) s' ≡ some s) × (is_consistent s'.tables ≡ true)
downgrade-upgrade r s s' h u e = (reverted r s s' h u e, upgrade-is_consistent r s s' h e)
