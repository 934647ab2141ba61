-- ===== src/Migrations/V004.antt =====
-- alembic/versions/004_seed_invite_key.py: the key that lets the first user register. The rows that
-- the scripts insert and delete are those of `Database`; the schema is beside them.
pub mod Bootstrap
use seans.Prelude.{ℕ, String, Bool, true, false, none, some, List, [], ◌∷◌, ◌++◌, not}
use seans.Table.{select}
use seans.Models.{Database, InviteKey}
use seans.Schema.{Operation}
use seans.Schema.Operation.{alter_nullable}

abbrev pub upgrade : List Operation
upgrade = alter_nullable "invite_keys" "created_by" true ∷ []

-- The row that the script inserts, with the default of the column `created_at`.
abbrev pub bootstrap_key : ℕ → String → ℕ → InviteKey
bootstrap_key id key now = record {
  id = id;
  key = key;
  created_by = none;
  used_by = none;
  created_at = now;
  used_at = none;
}

unfoldable pub insert_key : ℕ → String → ℕ → Database → Database
insert_key id key now db = record db {
  invite_keys = db.invite_keys ++ bootstrap_key id key now ∷ [];
}

-- `created_by IS NULL`
abbrev pub is_ownerless : InviteKey → Bool
is_ownerless invite = elim invite.created_by [ none ↦ true | some _ ↦ false ]

unfoldable pub delete_keys : Database → Database
unfolding select
delete_keys db = record db { invite_keys = select (λ i. not (is_ownerless i)) db.invite_keys }

abbrev pub downgrade : List Operation
downgrade = alter_nullable "invite_keys" "created_by" false ∷ []
