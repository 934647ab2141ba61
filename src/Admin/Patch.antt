-- ===== src/Admin/Patch.antt =====
-- What a patch of a user keeps, and what it sets.
use seans.Prelude.{
  ℕ, String, ◌≡◌, refl, Bool, true, false, Option, none, some, List, ◌&&◌, All, arith, inl, inr,
  get_or, Option-cases, Bool-cases, ◌==◌,
}
use seans.Table.{find}
use seans.Table.Laws.{find-All, update_where-All}
use seans.Models.{Database, User}
use seans.Admin.{AdminUserPatch, patch_plan, patch_fields, patch_user, is_false, save_user}

-- The rows of a user id are administrators.
abbrev pub StaysAdmin : ℕ → List User → Type 0
StaysAdmin id users = All (λ u. u.id ≡ id → u.is_admin ≡ true) users

patch_plan-admin :
    (body : AdminUserPatch) (code : Option String) (user planned : User)
    → patch_plan body code user ≡ some planned
    → (planned.is_admin ≡ user.is_admin) × (planned.id ≡ user.id)
unfolding patch_plan
patch_plan-admin body none user planned h = ground arith
patch_plan-admin body (some code) user planned h = ground arith

save_user-StaysAdmin :
    (id : ℕ) (user : User) (db : Database)
    → (user.id ≡ id → user.is_admin ≡ true)
    → StaysAdmin id db.users
    → StaysAdmin id (save_user user db).users
save_user-StaysAdmin id user db ok_user h =
    update_where-All _ (λ u. u.id ≡ id → u.is_admin ≡ true) _ db.users (λ _ _ _. ok_user) h

get_or-admin :
    (choice : Option Bool) (same was : Bool)
    → is_false choice && same ≡ false
    → same ≡ true
    → was ≡ true
    → get_or choice was ≡ true
get_or-admin none same was h own stays = stays
get_or-admin (some true) same was h own stays = refl
get_or-admin (some false) same was h own stays = absurd (ground arith)

-- No patch takes the rights of an administrator from the one who sends it, whatever the body holds
-- and whoever it is about: if the rows of the sender's id were administrators, they still are.
pub patch_user-StaysAdmin :
    (clock : ℕ) (admin : User) (user_id : ℕ) (body : AdminUserPatch) (db : Database)
    → StaysAdmin admin.id db.users
    → StaysAdmin admin.id (patch_user clock admin user_id body db).1.users
unfolding patch_user
patch_user-StaysAdmin clock admin user_id body db h =
    elim (Option-cases (find (λ u. u.id == user_id) db.users)) [
      | inl e ↦ rw e h
      | inr (user, e) ↦ elim (Bool-cases (is_false body.is_admin && user.id == admin.id)) [
        | inl own ↦ rw (e, own) h
        | inr other ↦ elim (Option-cases (patch_plan body body.plan user)) [
          | inl unknown ↦ rw (e, other, unknown) h
          | inr (planned, f) ↦
              let (same_admin, same_id) = patch_plan-admin body body.plan user planned f in
              let was = find-All _ _ db.users user h e in
              rw (e, other, f)
                (save_user-StaysAdmin admin.id (patch_fields body planned) db
                  (λ own.
                    get_or-admin body.is_admin (user.id == admin.id) planned.is_admin other
                      (ground arith) (ground arith))
                  h)
        ]
      ]
    ]
