-- ===== src/Auth.antt =====
-- app/services/auth.py and app/routers/auth.py: tokens, the dependencies that authenticate a user,
-- registration by invite, login and new invites. What the code calls of other packages is a record:
-- `encode` and `decode` are PyJWT's (`decode` gives the claim `sub` if there is one, and nothing if it
-- raises), `parse_uuid` and `str_uuid` are `uuid.UUID` and `str`, `hash_password` and `check_password`
-- are bcrypt's, and `same_email` is the equality of the column type `CITEXT`.
pub mod Tokens
pub mod Invites
use seans.Prelude.{
  ℕ, ◌+◌, ◌*◌, String, Bool, true, false, not, Option, none, some, List, [], ◌∷◌, ◌++◌, ◌&&◌, ◌==◌,
  str_eq, if◌then◌else◌,
}
use seans.Prelude.Int.{ℤ, pos}
use seans.Http.{Action, http, fail, or_raise, raise_if, pure, gets, commit, ◌>>=◌, ◌>>◌}
use seans.Table.{find, update_where}
use seans.Models.{Database, User, InviteKey}
use seans.Config.{Settings, hours}
use seans.Quota.{get_effective_quota_bytes}

pub record Crypto (Token : Type 0) : Type 0 where
  pub encode : String → ℕ → Token
  pub decode : ℕ → Token → Option (Option String)
  pub parse_uuid : String → Option ℕ
  pub str_uuid : ℕ → String
  pub hash_password : String → String
  pub check_password : String → String → Bool
  pub same_email : String → String → Bool

pub record RegisterRequest : Type 0 where
  pub email : String
  pub password : String
  pub display_name : String
  pub invite_key : String

pub record LoginRequest : Type 0 where
  pub email : String
  pub password : String

pub record UserResponse : Type 0 where
  pub id : ℕ
  pub email : String
  pub display_name : String
  pub is_admin : Bool
  pub can_invite : Bool
  pub plan : String
  pub plan_expires_at : Option ℕ
  pub quota_bytes : ℤ
  pub created_at : ℕ

-- UserResponse with the quota limit that is in effect at the time `clock`.
unfoldable pub user_to_response : User → ℕ → UserResponse
user_to_response user clock = record {
  id = user.id;
  email = user.email;
  display_name = user.display_name;
  is_admin = user.is_admin;
  can_invite = user.can_invite;
  plan = user.plan;
  plan_expires_at = user.plan_expires_at;
  quota_bytes = get_effective_quota_bytes user clock;
  created_at = user.created_at;
}

-- What a user reads of themselves.
unfoldable pub me : ℕ → User → UserResponse
unfolding user_to_response
me clock user = user_to_response user clock

-- The row of a new user, with the defaults of the columns.
abbrev pub new_user : ℕ → ℕ → RegisterRequest → String → User
new_user id now body password_hash = record {
  id = id;
  email = body.email;
  password_hash = password_hash;
  display_name = body.display_name;
  is_admin = false;
  can_invite = false;
  plan = "free";
  plan_expires_at = none;
  quota_bytes = pos 10737418240;
  created_at = now;
}

-- `used_by.is_(None)`
abbrev pub is_unused : InviteKey → Bool
is_unused invite = elim invite.used_by [ none ↦ true | some _ ↦ false ]

-- `if existing.scalar_one_or_none(): raise …`
abbrev pub not_registered : Option User → Action Database (Unit {0})
not_registered none = pure tt
not_registered (some user) = fail (http 409 "Email already registered")

abbrev pub new_invite : ℕ → String → ℕ → User → InviteKey
new_invite id key now user = record {
  id = id;
  key = key;
  created_by = some user.id;
  used_by = none;
  created_at = now;
  used_at = none;
}

module _ {Token : Type 0} (crypto : Crypto Token) where
  unfoldable pub create_access_token : Settings → ℕ → ℕ → Token
  create_access_token settings now user_id =
      crypto.encode (crypto.str_uuid user_id) (now + hours (settings.jwt_ttl_days * 24))

  -- The id in a payload: a missing `sub` and a text that is no UUID are caught alike.
  unfoldable pub subject : Option (Option String) → Option ℕ
  subject none = none
  subject (some none) = none
  subject (some (some sub)) = crypto.parse_uuid sub

  unfoldable pub verify_token : ℕ → Token → Action Database ℕ
  unfolding subject
  verify_token now token = or_raise (subject (crypto.decode now token)) (http 401 "Invalid token")

  unfoldable pub get_current_user : ℕ → Token → Action Database User
  unfolding verify_token
  get_current_user now token = do
    user_id ← verify_token now token
    found ← gets (λ db. find (λ u. u.id == user_id) db.users)
    or_raise found (http 401 "User not found")

  unfoldable pub require_admin : ℕ → Token → Action Database User
  unfolding get_current_user
  require_admin now token = do
    user ← get_current_user now token
    raise_if (not user.is_admin) (http 403 "Admin only")
    pure user

  -- `user_id` is the `uuid4()` of the new row.
  unfoldable pub register :
      Settings → ℕ → ℕ → RegisterRequest → Action Database (Token × UserResponse)
  unfolding create_access_token
  register settings user_id now body = do
    existing ← gets (λ db. find (λ u. crypto.same_email u.email body.email) db.users)
    not_registered existing
    found ← gets (λ db. find (λ i. str_eq i.key body.invite_key && is_unused i) db.invite_keys)
    invite ← or_raise found (http 400 "Invalid or already used invite key")
    let user = new_user user_id now body (crypto.hash_password body.password)
    let used = record invite { used_by = some user_id; used_at = some now }
    commit (λ db. record db {
      users = db.users ++ user ∷ [];
      invite_keys = update_where (λ i. i.id == invite.id) (λ _. used) db.invite_keys;
    })
    pure (create_access_token settings now user_id, user_to_response user now)

  -- `user is None or not verify_password(…)`
  abbrev pub check_credentials : String → Option User → Option User
  check_credentials password none = none
  check_credentials password (some user) =
      if crypto.check_password password user.password_hash then some user else none

  unfoldable pub login : Settings → ℕ → LoginRequest → Action Database (Token × UserResponse)
  unfolding create_access_token
  login settings now body = do
    found ← gets (λ db. find (λ u. crypto.same_email u.email body.email) db.users)
    user ← or_raise (check_credentials body.password found) (http 401 "Invalid credentials")
    pure (create_access_token settings now user.id, user_to_response user now)

-- `key` is the `uuid4().hex` that the handler draws, `id` the one of the row.
unfoldable pub create_invite_key : ℕ → String → ℕ → User → Action Database InviteKey
create_invite_key id key now user = do
  raise_if (not user.can_invite) (http 403 "You cannot generate invite keys")
  let invite = new_invite id key now user
  commit (λ db. record db { invite_keys = db.invite_keys ++ invite ∷ [] })
  pure invite
