-- ===== src/Quota/Sums.antt =====
-- How the sums of app/services/quota.py change with the tables.
use seans.Prelude.{
  ℕ, ◌≡◌, ◌≢◌, refl, ap, sym, ◌∙◌, true, some, Option-cases, false, Bool-cases, inl, inr, Bool,
  List, [], ◌∷◌, ◌++◌, All, arith, ◌&&◌, ◌==◌, if◌then◌else◌,
}
use seans.Prelude.Int.{ℤ, pos, ◌+ℤ◌, ◌≤ℤ◌, int_laws, +ℤ_assoc}
use seans.Table.{select, find, sum_by, join}
use seans.Models.{Database, User, Task, TaskFile, LibraryItem, is_active}
use seans.Quota.{get_used_bytes, get_reserved_bytes, get_effective_quota_bytes, check_quota}

-- The sum over one more row.
pub sum_by-select-append {ℓ} :
    {A : Type ℓ} (p : A → Bool) (f : A → ℤ) (xs : List A) (y : A)
    → sum_by f (select p (xs ++ y ∷ [])) ≡ sum_by f (select p xs) +ℤ (if p y then f y else pos 0)
unfolding select sum_by
sum_by-select-append p f [] y = elim (Bool-cases (p y)) [
  | inl e ↦ rw e (omega int_laws)
  | inr e ↦ rw e (omega int_laws)
]
sum_by-select-append p f (x ∷ xs) y = elim (Bool-cases (p x)) [
  | inl e ↦ rw e (
      ap (◌+ℤ◌ (f x)) (sum_by-select-append p f xs y)
      ∙ sym (+ℤ_assoc (f x) (sum_by f (select p xs)) (if p y then f y else pos 0)))
  | inr e ↦ rw e (sum_by-select-append p f xs y)
]

select-append_none {ℓ} :
    {A : Type ℓ} (p : A → Bool) (xs : List A) (y : A)
    → p y ≡ false
    → select p (xs ++ y ∷ []) ≡ select p xs
unfolding select
select-append_none p [] y h = rw h
select-append_none p (x ∷ xs) y h = ground (arith, select-append_none p xs y h)

-- One more task, to which no file belongs, joins no file.
join-append :
    (files : List TaskFile) (tasks : List Task) (t : Task)
    → All (λ f. f.task_id ≢ t.id) files
    → join (λ file task. task.id == file.task_id) files (tasks ++ t ∷ [])
      ≡ join (λ file task. task.id == file.task_id) files tasks
unfolding join
join-append [] tasks t h = refl
join-append (f ∷ files) tasks t (other, h) =
    rw (select-append_none (λ task. task.id == f.task_id) tasks t (ground arith))
      (ap (◌++◌ _) (join-append files tasks t h))

-- A task with no files adds nothing to what is used, and what it reserves to what is reserved.
pub get_used_bytes-append :
    (db : Database) (user_id : ℕ) (t : Task) (items : List LibraryItem)
    → All (λ f. f.task_id ≢ t.id) db.task_files
    → get_used_bytes (record db { tasks = db.tasks ++ t ∷ []; library_items = items }) user_id
      ≡ get_used_bytes db user_id
unfolding get_used_bytes
get_used_bytes-append db user_id t items h = rw (join-append db.task_files db.tasks t h)

pub get_reserved_bytes-append :
    (db : Database) (user_id : ℕ) (t : Task) (items : List LibraryItem)
    → get_reserved_bytes (record db { tasks = db.tasks ++ t ∷ []; library_items = items }) user_id
      ≡ get_reserved_bytes db user_id
        +ℤ (if t.user_id == user_id && is_active t.status then t.reserved_bytes else pos 0)
unfolding get_reserved_bytes
get_reserved_bytes-append db user_id t items =
    sum_by-select-append _ (λ task. task.reserved_bytes) db.tasks t

-- `check_quota` says that there is such a user, and that the bytes fit.
pub check_quota-true :
    (db : Database) (user_id : ℕ) (needed : ℤ) (clock : ℕ)
    → check_quota db user_id needed clock ≡ true
    → (row : User) × (find (λ user. user.id == user_id) db.users ≡ some row)
      × (get_used_bytes db user_id +ℤ get_reserved_bytes db user_id +ℤ needed
          ≤ℤ get_effective_quota_bytes row clock)
unfolding check_quota
check_quota-true db user_id needed clock h =
    elim (Option-cases (find (λ user. user.id == user_id) db.users)) [
      | inl e ↦ absurd (ground arith)
      | inr (row, e) ↦ (row, e, ground arith)
    ]

-- It says otherwise that the bytes do not fit the limit of the user, if there is one.
pub check_quota-false :
    (db : Database) (user_id : ℕ) (needed : ℤ) (clock : ℕ)
    → check_quota db user_id needed clock ≡ false
    → (row : User) → find (λ user. user.id == user_id) db.users ≡ some row
    → ¬ (
        get_used_bytes db user_id +ℤ get_reserved_bytes db user_id +ℤ needed
        ≤ℤ get_effective_quota_bytes row clock)
unfolding check_quota
check_quota-false db user_id needed clock h row e fits = ground arith
