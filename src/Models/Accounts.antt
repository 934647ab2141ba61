-- ===== src/Models/Accounts.antt =====
-- The rows of app/models/user.py, invite_key.py and worker.py. A UUID is a number, a time is the
-- number of microseconds since the epoch, and a nullable column is an `Option`.
use seans.Prelude.{ℕ, String, Bool, Option}
use seans.Prelude.Int.{ℤ}

pub record User : Type 0 where
  pub id : ℕ
  pub email : String
  pub password_hash : String
  pub display_name : String
  pub is_admin : Bool
  pub can_invite : Bool
  pub plan : String
  pub plan_expires_at : Option ℕ
  pub quota_bytes : ℤ
  pub created_at : ℕ

pub record InviteKey : Type 0 where
  pub id : ℕ
  pub key : String
  pub created_by : Option ℕ
  pub used_by : Option ℕ
  pub created_at : ℕ
  pub used_at : Option ℕ

pub record Worker : Type 0 where
  pub id : ℕ
  pub name : String
  pub token_hash : String
  pub last_seen_at : Option ℕ
  pub registered_at : ℕ
