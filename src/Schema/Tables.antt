-- ===== src/Schema/Tables.antt =====
-- Tables, their columns and keys, and the operations on them, as the scripts write them.
use seans.Prelude.{ℕ, String, Bool, true, false, Option, none, some, List}

pub data ColumnType : Type 0 where
  uuid : ColumnType
  citext : ColumnType
  text : ColumnType
  varchar : ColumnType
  string : ℕ → ColumnType
  small_integer : ColumnType
  integer : ColumnType
  big_integer : ColumnType
  numeric : ℕ → ℕ → ColumnType
  boolean : ColumnType
  date_time : ColumnType
  jsonb : ColumnType
  array : ColumnType → ColumnType

-- `sa.ForeignKey("table.column", ondelete="CASCADE")`, with `cascades` false where it has no
-- `ondelete`.
pub record ForeignKey : Type 0 where
  pub table : String
  pub column : String
  pub cascades : Bool

pub record Column : Type 0 where
  pub name : String
  pub type : ColumnType
  -- What the script says: a column of the primary key takes no null whatever stands here.
  pub nullable : Bool
  pub is_unique : Bool
  pub server_default : Option String
  pub foreign_key : Option ForeignKey

-- `sa.Column(name, type)` with no more arguments, and with each of the others.
abbrev pub column : String → ColumnType → Column
column name type = record {
  name = name;
  type = type;
  nullable = true;
  is_unique = false;
  server_default = none;
  foreign_key = none;
}

abbrev pub not_null : Column → Column
not_null c = record c { nullable = false }

abbrev pub is_unique_column : Column → Column
is_unique_column c = record c { is_unique = true }

abbrev pub with_default : String → Column → Column
with_default default c = record c { server_default = some default }

abbrev pub referring : String → Bool → Column → Column
referring table cascades c = record c {
  foreign_key = some (record { table = table; column = "id"; cascades = cascades });
}

-- What stands on columns of one table and goes with them: its constraints, and its indexes with
-- the condition of a partial one.
pub data KeyKind : Type 0 where
  primary_key : KeyKind
  unique : KeyKind
  check : String → KeyKind
  index : Option String → KeyKind

-- A constraint without a name of its own has none; a check has the columns that it reads.
pub record Key : Type 0 where
  pub kind : KeyKind
  pub name : Option String
  pub columns : List String

abbrev pub key : KeyKind → Option String → List String → Key
key kind name columns = record { kind = kind; name = name; columns = columns }

pub record TableDef : Type 0 where
  pub name : String
  pub columns : List Column
  pub keys : List Key

pub record Schema : Type 0 where
  pub extensions : List String
  pub tables : List TableDef

-- What the scripts ask of `op`.
pub data Operation : Type 0 where
  create_extension : String → Operation
  drop_extension : String → Operation
  create_table : TableDef → Operation
  drop_table : String → Operation
  add_column : String → Column → Operation
  drop_column : String → String → Operation
  alter_nullable : String → String → Bool → Operation
  create_index : String → Key → Operation
  drop_index : String → String → Operation
