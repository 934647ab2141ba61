-- ===== src/Admin.antt =====
-- app/routers/admin.py: what an administrator reads and changes of the users. A handler takes the
-- administrator that `require_admin` returned.
pub mod Patch
pub mod Quotas
use mathlib.Core.Option
use seans.Prelude.{
  ℕ, String, Bool, true, false, Option, none, some, List, [], ◌∷◌, map, ◌&&◌, get_or, concat, ltb,
  ◌==◌, if◌then◌else◌,
}
use seans.Prelude.Int.{ℤ}
use seans.Http.{
  Action, Result, HttpException, ok, raise, http, or_raise, raise_if, pure, gets, commit, ◌>>=◌,
  ◌>>◌,
}
use seans.Table.{find, update_where, order_by}
use seans.Models.{Database, User}
use seans.Plans.{Plan, plans, get_plan}
use seans.Auth.{UserResponse}
use seans.Quota.{get_used_bytes, get_reserved_bytes, get_effective_quota_bytes}

pub record AdminUserPatch : Type 0 where
  pub is_admin : Option Bool
  pub can_invite : Option Bool
  pub plan : Option String
  pub plan_expires_at : Option ℕ
  pub quota_bytes : Option ℤ

pub record AdminUserResponse : Type 0 where
  pub id : ℕ
  pub email : String
  pub display_name : String
  pub is_admin : Bool
  pub can_invite : Bool
  pub plan : String
  pub plan_expires_at : Option ℕ
  pub quota_bytes : ℤ
  pub effective_quota_bytes : ℤ
  pub used_bytes : ℤ
  pub reserved_bytes : ℤ
  pub created_at : ℕ

unfoldable pub to_admin_response : ℕ → User → ℤ → ℤ → AdminUserResponse
to_admin_response clock user used_bytes reserved_bytes = record {
  id = user.id;
  email = user.email;
  display_name = user.display_name;
  is_admin = user.is_admin;
  can_invite = user.can_invite;
  plan = user.plan;
  plan_expires_at = user.plan_expires_at;
  quota_bytes = user.quota_bytes;
  effective_quota_bytes = get_effective_quota_bytes user clock;
  used_bytes = used_bytes;
  reserved_bytes = reserved_bytes;
  created_at = user.created_at;
}

unfoldable pub list_plans : List Plan
list_plans = map (λ entry. entry.1) plans

-- A user with the sums over the user's files and tasks.
unfoldable pub describe_user : ℕ → Database → User → AdminUserResponse
unfolding to_admin_response
describe_user clock db user =
    to_admin_response clock user (get_used_bytes db user.id) (get_reserved_bytes db user.id)

-- `User.created_at.desc()`
abbrev pub newer_user : User → User → Bool
newer_user u v = ltb v.created_at u.created_at

unfoldable pub list_users : ℕ → Database → List AdminUserResponse
unfolding describe_user
list_users clock db = map (describe_user clock db) (order_by newer_user db.users)

unfoldable pub get_user : ℕ → ℕ → Action Database AdminUserResponse
unfolding describe_user
get_user clock user_id = do
  found ← gets (λ db. find (λ u. u.id == user_id) db.users)
  user ← or_raise found (http 404 "User not found")
  gets (λ db. describe_user clock db user)

-- `body.is_admin is False`
abbrev pub is_false : Option Bool → Bool
is_false (some false) = true
is_false (some true) = false
is_false none = false

-- `f"Unknown plan: {body.plan}"`
abbrev pub unknown_plan : Option String → String
unknown_plan plan = concat ("Unknown plan: " ∷ get_or plan "None" ∷ [])

-- `if body.plan is not None: …`
unfoldable pub patch_plan : AdminUserPatch → Option String → User → Option User
patch_plan body none user = some user
patch_plan body (some code) user = elim (get_plan code) [
  | none ↦ none
  | some plan ↦ some (record user {
    plan = code;
    plan_expires_at = body.plan_expires_at;
    quota_bytes = get_or (Option.map (λ _. user.quota_bytes) body.quota_bytes) plan.quota_bytes;
  })
]

-- The assignments below it.
unfoldable pub patch_fields : AdminUserPatch → User → User
patch_fields body user = record user {
  quota_bytes = get_or body.quota_bytes user.quota_bytes;
  is_admin = get_or body.is_admin user.is_admin;
  can_invite = get_or body.can_invite user.can_invite;
}

abbrev pub save_user : User → Database → Database
save_user user db = record db { users = update_where (λ u. u.id == user.id) (λ _. user) db.users }

unfoldable pub patch_user : ℕ → User → ℕ → AdminUserPatch → Action Database AdminUserResponse
unfolding patch_fields describe_user
patch_user clock admin user_id body = do
  found ← gets (λ db. find (λ u. u.id == user_id) db.users)
  user ← or_raise found (http 404 "User not found")
  raise_if (is_false body.is_admin && user.id == admin.id)
      (http 400 "Cannot remove your own admin access")
  planned ← or_raise (patch_plan body body.plan user) (http 400 (unknown_plan body.plan))
  let patched = patch_fields body planned
  commit (save_user patched)
  gets (λ db. describe_user clock db patched)

unfoldable pub admin_me : ℕ → User → UserResponse
admin_me clock admin = record {
  id = admin.id;
  email = admin.email;
  display_name = admin.display_name;
  is_admin = admin.is_admin;
  can_invite = admin.can_invite;
  plan = admin.plan;
  plan_expires_at = admin.plan_expires_at;
  quota_bytes = get_effective_quota_bytes admin clock;
  created_at = admin.created_at;
}
