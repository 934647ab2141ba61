-- ===== src/Auth/Invites.antt =====
-- Registration by invite.
use seans.Prelude.{
  ℕ, ◌≡◌, refl, String, true, false, none, some, List, [], ◌∷◌, ◌&&◌, All, arith, inl, inr,
  Option-cases, ◌==◌, str_eq,
}
use seans.Http.{Result, ok, raise}
use seans.Table.{find, update_where}
use seans.Table.Laws.{find-test, find-All}
use seans.Models.{Database, InviteKey}
use seans.Config.{Settings}
use seans.Auth.{Crypto, RegisterRequest, is_unused, register}

abbrev pub IsOk {ℓ} : {A : Type ℓ} → Result A → Type 0
IsOk (ok a) = Unit
IsOk (raise e) = ⊥

-- The unique constraint on the keys: the rows of one key are one row.
abbrev pub IsRowOf : String → ℕ → InviteKey → Type 0
IsRowOf key id i = str_eq i.key key ≡ true → i.id ≡ id

spent :
    (key : String) (id : ℕ) (used : InviteKey) (invites : List InviteKey)
    → is_unused used ≡ false
    → All (IsRowOf key id) invites
    → find
        (λ i. str_eq i.key key && is_unused i)
        (update_where (λ i. i.id == id) (λ _. used) invites)
      ≡ none
unfolding find update_where
spent key id used [] h rows = refl
spent key id used (i ∷ invites) h (row, rows) = ground (arith, spent key id used invites h rows)

module _ {Token : Type 0} (crypto : Crypto Token) (settings : Settings) where
  -- A registration without an unused invite of its key is refused.
  no_invite_refused :
      (user_id now : ℕ) (body : RegisterRequest) (db : Database)
      → find (λ i. str_eq i.key body.invite_key && is_unused i) db.invite_keys ≡ none
      → (¬ IsOk (register crypto settings user_id now body db).0)
        × ((register crypto settings user_id now body db).1 ≡ db)
  unfolding register
  no_invite_refused user_id now body db e =
      elim (Option-cases (find (λ u. crypto.same_email u.email body.email) db.users)) [
        | inr (user, taken) ↦ rw taken (absurd, refl)
        | inl free ↦ rw (free, e) (absurd, refl)
      ]

  -- The invites after a registration that passed.
  spent_by_register :
      (user_id now : ℕ) (body : RegisterRequest) (db : Database) (id : ℕ)
      → All (IsRowOf body.invite_key id) db.invite_keys
      → IsOk (register crypto settings user_id now body db).0
      → find
          (λ i. str_eq i.key body.invite_key && is_unused i)
          (register crypto settings user_id now body db).1.invite_keys
        ≡ none
  unfolding register
  spent_by_register user_id now body db id rows passed =
      elim (Option-cases (find (λ u. crypto.same_email u.email body.email) db.users)) [
        | inr (user, taken) ↦ absurd (rw taken at passed)
        | inl free ↦
            elim (Option-cases
              (find (λ i. str_eq i.key body.invite_key && is_unused i) db.invite_keys)) [
                | inl e ↦ absurd (rw (free, e) at passed)
                | inr (invite, e) ↦
                    let test = find-test _ db.invite_keys invite e in
                    let row : invite.id ≡ id =
                      find-All _ (IsRowOf body.invite_key id) db.invite_keys invite rows e
                        (ground arith) in
                    rw (free, e, row)
                      (spent body.invite_key id
                        (record invite { id = id; used_by = some user_id; used_at = some now })
                        db.invite_keys refl rows)
              ]
      ]

  -- An invite serves once: after a registration with a key, every other one with that key is
  -- refused, and changes nothing. (The key is unique in its table.)
  pub invite_serves_once :
      (user_id user_id' now now' : ℕ) (body body' : RegisterRequest) (db : Database) (id : ℕ)
      → All (IsRowOf body.invite_key id) db.invite_keys
      → IsOk (register crypto settings user_id now body db).0
      → body'.invite_key ≡ body.invite_key
      → let db' = (register crypto settings user_id now body db).1 in
        (¬ IsOk (register crypto settings user_id' now' body' db').0)
        × ((register crypto settings user_id' now' body' db').1 ≡ db')
  invite_serves_once user_id user_id' now now' body body' db id rows passed same =
      no_invite_refused user_id' now' body' (register crypto settings user_id now body db).1
        (rw same (spent_by_register user_id now body db id rows passed))
