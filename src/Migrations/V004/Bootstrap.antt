-- ===== src/Migrations/V004/Bootstrap.antt =====
-- What the key of the fourth script is for, and the keys after its removal.
use seans.Prelude.{
  ℕ, Bool, true, none, some, List, [], ◌∷◌, ◌++◌, ◌&&◌, ◌≡◌, refl, arith, str_eq, str_eq_iff,
}
use seans.Table.{find}
use seans.Models.{Database}
use seans.Config.{Settings}
use seans.Auth.{Crypto, RegisterRequest, is_unused, register}
use seans.Auth.Invites.{IsOk}
use seans.Migrations.V004.{bootstrap_key, insert_key}

pub find-append_last {ℓ} :
    {A : Type ℓ} (p : A → Bool) (xs : List A) (x : A)
    → find p xs ≡ none
    → p x ≡ true
    → find p (xs ++ x ∷ []) ≡ some x
unfolding find
find-append_last p [] x e h = ground arith
find-append_last p (y ∷ xs) x e h = ground (arith, find-append_last p xs x)

module _ {Token : Type 0} (crypto : Crypto Token) (settings : Settings) where
  -- Who sends the key that the upgrade inserted is registered, if their address is not registered
  -- and no other unused invite has that key.
  pub bootstrap_key_registers :
      (id made user_id now : ℕ) (body : RegisterRequest) (db : Database)
      → find (λ u. crypto.same_email u.email body.email) db.users ≡ none
      → find (λ i. str_eq i.key body.invite_key && is_unused i) db.invite_keys ≡ none
      → IsOk (register crypto settings user_id now body (insert_key id body.invite_key made db)).0
  unfolding register insert_key
  bootstrap_key_registers id made user_id now body db free unused =
      let same : str_eq body.invite_key body.invite_key ≡ true =
        (str_eq_iff body.invite_key body.invite_key).1 refl in
      let found =
        find-append_last (λ i. str_eq i.key body.invite_key && is_unused i) db.invite_keys
          (bootstrap_key id body.invite_key made) unused (rw same refl) in
      rw (free, found) tt
