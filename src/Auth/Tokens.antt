-- ===== src/Auth/Tokens.antt =====
-- Access tokens, from the login to the request.
use mathlib.Core.List.{Mem}
use seans.Prelude.{
  ℕ, ◌+◌, ◌*◌, ◌/◌, ◌<◌, ◌≤◌, ◌≡◌, refl, String, true, none, some, ◌==◌, arith, Option-cases,
  Bool-cases, inl, inr,
}
use seans.Http.{ok, raise, http}
use seans.Table.{find}
use seans.Table.Laws.{find-test, find-All, all_mem}
use seans.Models.{Database, User}
use seans.Config.{Settings, hours, seconds}
use seans.Auth.{
  Crypto, LoginRequest, UserResponse, create_access_token, subject, verify_token, get_current_user,
  login,
}

-- PyJWT writes the claim `exp` in whole seconds.
abbrev pub whole_seconds : ℕ → ℕ
whole_seconds time = seconds (time / 1000000)

-- What PyJWT and `uuid` document: a payload that was signed with the secret is read back before the
-- second in which it expires begins, and refused from then on; and the text of a UUID is parsed to
-- that UUID.
pub record IsSound {Token : Type 0} (crypto : Crypto Token) : Type 0 where
  pub decode-encode :
      (sub : String) (exp now : ℕ)
      → now < whole_seconds exp
      → crypto.decode now (crypto.encode sub exp) ≡ some (some sub)
  pub decode-encode_expired :
      (sub : String) (exp now : ℕ)
      → whole_seconds exp ≤ now
      → crypto.decode now (crypto.encode sub exp) ≡ none
  pub parse_uuid-str_uuid : (id : ℕ) → crypto.parse_uuid (crypto.str_uuid id) ≡ some id

module _ {Token : Type 0} (crypto : Crypto Token) where
  -- Who logs in is a user with that address and password, and the token is made for their id.
  login_inv :
      (settings : Settings) (made : ℕ) (body : LoginRequest) (db : Database) (token : Token)
      (answer : UserResponse)
      → (login crypto settings made body db).0 ≡ ok (token, answer)
      → (user : User) × (find (λ u. crypto.same_email u.email body.email) db.users ≡ some user)
        × (crypto.check_password body.password user.password_hash ≡ true)
        × (token ≡ create_access_token crypto settings made user.id)
  unfolding login
  login_inv settings made body db token answer h =
      elim (Option-cases (find (λ u. crypto.same_email u.email body.email) db.users)) [
        | inl e ↦ let no = rw e at h in absurd (ground arith)
        | inr (user, e) ↦
            elim (Bool-cases (crypto.check_password body.password user.password_hash)) [
              | inl fits ↦ let given = rw (e, fits) at h in (user, e, fits, ground arith)
              | inr wrong ↦ let no = rw (e, wrong) at h in absurd (ground arith)
            ]
      ]

  module _ (sound : IsSound crypto) where
    token_read :
        (settings : Settings) (made now user_id : ℕ)
        → now < whole_seconds (made + hours (settings.jwt_ttl_days * 24))
        → subject crypto (crypto.decode now (create_access_token crypto settings made user_id))
          ≡ some user_id
    unfolding create_access_token subject
    token_read settings made now user_id h =
        rw
          (sound.decode-encode (crypto.str_uuid user_id) (made + hours (settings.jwt_ttl_days * 24))
            now h)
          (sound.parse_uuid-str_uuid user_id)

    token_expired :
        (settings : Settings) (made now user_id : ℕ)
        → whole_seconds (made + hours (settings.jwt_ttl_days * 24)) ≤ now
        → subject crypto (crypto.decode now (create_access_token crypto settings made user_id))
          ≡ none
    unfolding create_access_token subject
    token_expired settings made now user_id h =
        rw
          (sound.decode-encode_expired (crypto.str_uuid user_id)
            (made + hours (settings.jwt_ttl_days * 24)) now h)
          refl

    -- A login that is accepted is the one of a user with that address and password, and its token
    -- authenticates the row of their id, whatever else has changed by then, before the second in
    -- which the days in the settings are over. A user who is gone by then is refused, and so is the
    -- token from that second on. The check of a token changes nothing.
    pub login_authenticates :
        (settings : Settings) (made now : ℕ) (body : LoginRequest) (db later : Database)
        (token : Token) (answer : UserResponse)
        → (login crypto settings made body db).0 ≡ ok (token, answer)
        → let expires = whole_seconds (made + hours (settings.jwt_ttl_days * 24)) in
          (user : User) × Mem user db.users
          × (crypto.same_email user.email body.email ≡ true)
          × (crypto.check_password body.password user.password_hash ≡ true)
          × ((row : User)
              → now < expires
              → find (λ u. u.id == user.id) later.users ≡ some row
              → get_current_user crypto now token later ≡ (ok row, later))
          × (now < expires
              → find (λ u. u.id == user.id) later.users ≡ none
              → get_current_user crypto now token later
                ≡ (raise (http 401 "User not found"), later))
          × (expires ≤ now
              → get_current_user crypto now token later ≡ (raise (http 401 "Invalid token"), later))
    unfolding get_current_user verify_token
    login_authenticates settings made now body db later token answer h =
        let by_email = λ (u : User). crypto.same_email u.email body.email in
        let (user, found, fits, made_for) = login_inv settings made body db token answer h in
        (
          user,
          find-All by_email (λ u. Mem u db.users) db.users user (all_mem db.users) found,
          find-test by_email db.users user found,
          fits,
          λ row valid e. rw (made_for, token_read settings made now user.id valid, e) refl,
          λ valid e. rw (made_for, token_read settings made now user.id valid, e) refl,
          λ over. rw (made_for, token_expired settings made now user.id over) refl,
        )
