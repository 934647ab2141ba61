-- ===== src/Schema/Scripts.antt =====
-- Scripts of operations and the scripts that undo them.
use seans.Prelude.{Bool, true, false, not, none, some, List, [], ◌∷◌, ◌++◌, ◌&&◌, str_eq}
use seans.Prelude.Options.{get}
use seans.Table.{exists}
use seans.Schema.Operation.{
  create_extension, drop_extension, create_table, drop_table, create_index, drop_index, add_column,
  drop_column, alter_nullable,
}
use seans.Schema.{Operation, Schema, every, is_citext, apply}
use seans.Schema.Undo.{differs}
use seans.Schema.Kept.{is_addition}

-- What a `downgrade` does about each operation of its `upgrade`.
abbrev pub undo : Operation → Operation
undo (create_extension n) = drop_extension n
undo (create_table t) = drop_table t.name
undo (add_column n c) = drop_column n c.name
undo (alter_nullable n cn nullable) = alter_nullable n cn (not nullable)
undo (create_index n k) = drop_index (get k.name "") n
undo o = o

abbrev pub undo_all : List Operation → List Operation
undo_all [] = []
undo_all (o ∷ os) = undo_all os ++ undo o ∷ []

-- An extension is dropped whoever created it, and a column becomes what `downgrade` says, whatever
-- it was: only from such schemas are these undone. A removal is not.
unfoldable pub is_reversible : Operation → Schema → Bool
unfolding exists every differs
is_reversible (create_extension n) s =
    not (exists (str_eq n) s.extensions) && not (exists (λ t. exists is_citext t.columns) s.tables)
is_reversible (alter_nullable n cn nullable) s = every (differs cn nullable) s.tables
is_reversible o s = is_addition o

-- Every operation of the script can be undone where the script comes to it.
unfoldable pub all_reversible : List Operation → Schema → Bool
unfolding is_reversible apply
all_reversible [] s = true
all_reversible (o ∷ os) s =
    is_reversible o s && elim (apply o s) [ none ↦ true | some s' ↦ all_reversible os s' ]

-- The operations that can be undone from any schema without dangling references.
abbrev pub is_plain : Operation → Bool
is_plain (create_table t) = true
is_plain (add_column n c) = true
is_plain (create_index n k) = true
is_plain _ = false
