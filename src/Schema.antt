-- ===== src/Schema.antt =====
-- The database's schema as the scripts of alembic/versions change it: tables with their columns and
-- keys, and the operations of `alembic.op` that the scripts call, as the statements of PostgreSQL
-- that they send. An operation that PostgreSQL refuses has no result.
mod Tables
pub mod Consistent
pub mod Undo
pub mod Sound
pub mod Kept
pub mod Scripts
pub mod References
pub mod Undone
pub mod Roundtrip
pub use Tables.*
use seans.Prelude.{
  ℕ, String, Bool, true, false, not, Option, none, some, List, [], ◌∷◌, ◌++◌, ◌&&◌, str_eq,
  if◌then◌else◌,
}
use seans.Prelude.Options.{◌>>=◌, map_option}
use seans.Table.{find, exists, select, update_where}
use seans.Schema.Tables.{Column, Key, TableDef, Schema, Operation, ColumnType}
use seans.Schema.Tables.Operation.{
  create_extension, drop_extension, create_table, drop_table, add_column, drop_column,
  alter_nullable, create_index, drop_index,
}

unfoldable pub every {ℓ} : {A : Type ℓ} → (A → Bool) → List A → Bool
every p [] = true
every p (x ∷ xs) = p x && every p xs

abbrev pub given {ℓ} : {A : Type ℓ} → Bool → Option A → Option A
given true o = o
given false o = none

unfoldable pub has_column : String → TableDef → Bool
unfolding exists
has_column n t = exists (λ c. str_eq c.name n) t.columns

unfoldable pub find_table : String → List TableDef → Option TableDef
unfolding find
find_table n ts = find (λ t. str_eq t.name n) ts

abbrev pub has_table : String → List TableDef → Bool
has_table n ts = elim (find_table n ts) [ none ↦ false | some _ ↦ true ]

-- The column that a foreign key refers to is there.
unfoldable pub points_to : List TableDef → String → String → Bool
points_to ts n c = elim (find_table n ts) [ none ↦ false | some t ↦ has_column c t ]

unfoldable pub has_target : List TableDef → Column → Bool
has_target ts c = elim c.foreign_key [ none ↦ true | some fk ↦ points_to ts fk.table fk.column ]

unfoldable pub is_on_columns : TableDef → Key → Bool
unfolding every
is_on_columns t k = every (λ n. has_column n t) k.columns

-- Every foreign key of the table has its target, and every key its columns.
unfoldable pub is_sound : List TableDef → TableDef → Bool
unfolding every
is_sound ts t = every (has_target ts) t.columns && every (is_on_columns t) t.keys

unfoldable pub refers_to_table : String → Column → Bool
refers_to_table n c = elim c.foreign_key [ none ↦ false | some fk ↦ str_eq fk.table n ]

unfoldable pub refers_to : String → String → Column → Bool
refers_to n cn c = elim c.foreign_key [
  | none ↦ false
  | some fk ↦ str_eq fk.table n && str_eq fk.column cn
]

abbrev pub is_named : String → Key → Bool
is_named n k = elim k.name [ none ↦ false | some m ↦ str_eq m n ]

-- The first table of the name, changed.
unfoldable pub alter_table :
    String → (TableDef → Option TableDef) → List TableDef → Option (List TableDef)
alter_table n f [] = none
alter_table n f (t ∷ ts) =
    let later = alter_table n f ts in
    if str_eq t.name n then map_option (λ t'. t' ∷ ts) (f t) else map_option (λ ts'. t ∷ ts') later

unfoldable pub remove_table : String → List TableDef → Option (List TableDef)
remove_table n [] = none
remove_table n (t ∷ ts) =
    let later = remove_table n ts in
    if str_eq t.name n then some ts else map_option (λ ts'. t ∷ ts') later

unfoldable pub append_column : Column → TableDef → Option TableDef
unfolding has_column
append_column c t =
    given (not (has_column c.name t)) (some (record t { columns = t.columns ++ c ∷ [] }))

-- With the column go the keys that it has a part in.
unfoldable pub delete_column : String → TableDef → Option TableDef
unfolding has_column exists select
delete_column cn t = given (has_column cn t) (
    some (record t {
      columns = select (λ c. not (str_eq c.name cn)) t.columns;
      keys = select (λ k. not (exists (λ n. str_eq n cn) k.columns)) t.keys;
    }))

unfoldable pub set_nullable : String → Bool → TableDef → Option TableDef
unfolding has_column update_where
set_nullable cn nullable t = given (has_column cn t) (
    some (record t {
      columns =
          update_where (λ c. str_eq c.name cn) (λ c. record c { nullable = nullable }) t.columns;
    }))

unfoldable pub append_index : Key → TableDef → Option TableDef
unfolding is_on_columns
append_index k t = given (is_on_columns t k) (some (record t { keys = k ∷ t.keys }))

unfoldable pub has_index : String → TableDef → Bool
unfolding exists
has_index n t = exists (is_named n) t.keys

unfoldable pub delete_index : String → TableDef → Option TableDef
unfolding has_index select
delete_index n t =
    given (has_index n t) (some (record t { keys = select (λ k. not (is_named n k)) t.keys }))

-- No index of the schema has the name.
unfoldable pub is_free : Option String → List TableDef → Bool
unfolding exists has_index
is_free none ts = false
is_free (some n) ts = not (exists (has_index n) ts)

-- No other table refers to this one.
unfoldable pub is_unreferenced : String → List TableDef → Bool
unfolding exists refers_to_table
is_unreferenced n ts =
    not (exists (λ t. not (str_eq t.name n) && exists (refers_to_table n) t.columns) ts)

abbrev pub is_citext : Column → Bool
is_citext c = elim c.type [ ColumnType.citext ↦ true | _ ↦ false ]

-- `DROP EXTENSION` is refused while a column has the type that comes with it.
unfoldable pub is_unneeded : String → List TableDef → Bool
unfolding exists
is_unneeded n ts = not (str_eq n "citext" && exists (λ t. exists is_citext t.columns) ts)

-- The tables after an operation.
unfoldable pub change : Operation → List TableDef → Option (List TableDef)
unfolding exists is_sound alter_table remove_table append_column delete_column set_nullable
    append_index delete_index is_free is_unreferenced has_target refers_to is_unneeded
change (create_extension n) ts = some ts
change (drop_extension n) ts = given (is_unneeded n ts) (some ts)
change (create_table t) ts =
    given (not (has_table t.name ts) && is_sound (t ∷ ts) t) (some (t ∷ ts))
change (drop_table n) ts = given (is_unreferenced n ts) (remove_table n ts)
change (add_column n c) ts = given (has_target ts c) (alter_table n (append_column c) ts)
change (drop_column n cn) ts =
    given (not (exists (λ t. exists (refers_to n cn) t.columns) ts))
      (alter_table n (delete_column cn) ts)
change (alter_nullable n cn nullable) ts = alter_table n (set_nullable cn nullable) ts
change (create_index n k) ts = given (is_free k.name ts) (alter_table n (append_index k) ts)
change (drop_index name n) ts = alter_table n (delete_index name) ts

-- `CREATE EXTENSION IF NOT EXISTS` and `DROP EXTENSION IF EXISTS`.
unfoldable pub extensions_after : Operation → List String → List String
unfolding exists select
extensions_after (create_extension n) es = if exists (str_eq n) es then es else n ∷ es
extensions_after (drop_extension n) es = select (λ m. not (str_eq n m)) es
extensions_after _ es = es

unfoldable pub apply : Operation → Schema → Option Schema
unfolding change extensions_after
apply o s =
    map_option (λ ts. record { extensions = extensions_after o s.extensions; tables = ts })
      (change o s.tables)

-- A script, whose transaction is rolled back where an operation is refused.
unfoldable pub run : List Operation → Schema → Option Schema
unfolding apply
run [] s = some s
run (o ∷ os) s = apply o s >>= run os
