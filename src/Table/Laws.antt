-- ===== src/Table/Laws.antt =====
-- Laws of the statements that follow from no one component.
use mathlib.Core.List.{Mem, mem-cons_self, mem-cons_of_mem}
use seans.Prelude.{
  ◌++◌, refl, ◌≡◌, inl, inr, Bool-cases, Bool, true, false, length, some, List, [], ◌∷◌, map, All,
  All-append, All-weaken, arith, if◌then◌else◌,
}
use seans.Table.Query.{select, find, exists, update_where, upsert, join}

module _ {ℓ} {A : Type ℓ} (p : A → Bool) where
  -- What `find` finds passes the test, and satisfies what all rows satisfy.
  pub find-test : (xs : List A) (x : A) → find p xs ≡ some x → p x ≡ true
  unfolding find
  find-test [] x h = absurd (ground arith)
  find-test (y ∷ xs) x h = ground (arith, find-test xs x)

  pub find-All {κ} : (P : A → Type κ) (xs : List A) (x : A) → All P xs → find p xs ≡ some x → P x
  unfolding find
  find-All P [] x all h = absurd (ground arith)
  find-All P (y ∷ xs) x all h = ground (arith, find-All P xs x all.1)

  -- A row that another query finds.
  pub find-exists :
      (q : A → Bool) (xs : List A) (x : A) → find q xs ≡ some x → p x ≡ true → exists p xs ≡ true
  unfolding find exists
  find-exists q [] x h fits = absurd (ground arith)
  find-exists q (y ∷ xs) x h fits = ground (arith, find-exists q xs x)

  pub select-exists :
      (xs : List A) → exists p xs ≡ true → (y : A) × (ys : List A) × (select p xs ≡ y ∷ ys)
  unfolding select exists
  select-exists [] h = absurd (ground arith)
  select-exists (y ∷ xs) h = elim (Bool-cases (p y)) [
    | inl here ↦ (y, select p xs, rw here refl)
    | inr next ↦ rw next (select-exists xs (rw next at h))
  ]

  pub select-All {κ} : (P : A → Type κ) (xs : List A) → All P xs → All P (select p xs)
  unfolding select
  select-All P [] h = tt
  select-All P (y ∷ xs) h = ground (arith, select-All P xs h.1)

  pub select-tests : (xs : List A) → All (λ x. p x ≡ true) (select p xs)
  unfolding select
  select-tests [] = tt
  select-tests (y ∷ xs) = ground (arith, select-tests xs)

  -- An update keeps what it keeps of each row.
  pub update_where-All {κ} :
      (P : A → Type κ) (f : A → A) (xs : List A)
      → ((x : A) → p x ≡ true → P x → P (f x))
      → All P xs
      → All P (update_where p f xs)
  unfolding update_where
  update_where-All P f [] keep h = tt
  update_where-All P f (x ∷ xs) keep h =
      let rest = update_where-All P f xs keep h.1 in ground (arith, keep x)

-- The row that replaces the one a query finds is found by it.
pub find-update_where {ℓ} :
    {A : Type ℓ} (p q : A → Bool) (x y : A) (xs : List A)
    → find p xs ≡ some x
    → p y ≡ true
    → ((z : A) → p z ≡ true → q z ≡ true)
    → find p (update_where q (λ _. y) xs) ≡ some y
unfolding find update_where
find-update_where p q x y [] e fits covers = absurd (ground arith)
find-update_where p q x y (z ∷ xs) e fits covers =
    ground (arith, covers z, find-update_where p q x y xs)

pub select-append {ℓ} :
    {A : Type ℓ} (p : A → Bool) (xs ys : List A) → select p (xs ++ ys) ≡ select p xs ++ select p ys
unfolding select
select-append p [] ys = refl
select-append p (x ∷ xs) ys = ground (arith, select-append p xs ys)

-- A new row that a query does not want.
pub select-append_miss {ℓ} :
    {A : Type ℓ} (p : A → Bool) (xs : List A) (x : A)
    → p x ≡ false
    → select p (xs ++ x ∷ []) ≡ select p xs
unfolding select
select-append_miss p [] x miss = ground arith
select-append_miss p (y ∷ xs) x miss = ground (arith, select-append_miss p xs x)

-- An update that changes no test of a query changes no count of it.
pub length-select-update_where {ℓ} :
    {A : Type ℓ} (p q : A → Bool) (f : A → A) (xs : List A)
    → ((y : A) → q (f y) ≡ q y)
    → length (select q (update_where p f xs)) ≡ length (select q xs)
unfolding select update_where
length-select-update_where p q f [] same = refl
length-select-update_where p q f (y ∷ xs) same =
    ground (arith, same y, length-select-update_where p q f xs same)

pub exists-never {ℓ} : {A : Type ℓ} (xs : List A) → exists (λ _. false) xs ≡ false
unfolding exists
exists-never [] = refl
exists-never (x ∷ xs) = exists-never xs

module _ {ℓ} {A : Type ℓ} (p : A → Bool) where
  pub exists-false : (xs : List A) → exists p xs ≡ false → All (λ x. p x ≡ false) xs
  unfolding exists
  exists-false [] e = tt
  exists-false (x ∷ xs) e = ground (arith, exists-false xs)

  -- What an update gives to the rows that it changes, and the others have.
  pub update_where-sets {κ} :
      (Q : A → Type κ) (f : A → A) (xs : List A)
      → ((x : A) → p x ≡ true → Q (f x))
      → ((x : A) → p x ≡ false → Q x)
      → All Q (update_where p f xs)
  unfolding update_where
  update_where-sets Q f [] changed kept = tt
  update_where-sets Q f (x ∷ xs) changed kept =
      let rest = update_where-sets Q f xs changed kept in
      elim (Bool-cases (p x)) [
        | inl hit ↦ rw hit (changed x hit, rest)
        | inr miss ↦ rw miss (kept x miss, rest)
      ]

  -- The same of an upsert.
  pub upsert-sets {κ} :
      (Q : A → Type κ) (f : A → A) (x : A) (xs : List A)
      → Q x
      → ((y : A) → p y ≡ true → Q (f y))
      → ((y : A) → p y ≡ false → Q y)
      → All Q (upsert p f x xs)
  unfolding upsert
  upsert-sets Q f x xs fresh changed kept = elim (Bool-cases (exists p xs)) [
    | inl there ↦ rw there (update_where-sets Q f xs changed kept)
    | inr free ↦
        rw free
          (All-append Q xs (x ∷ []) (All-weaken _ Q xs kept (exists-false xs free)) (fresh, tt))
  ]

-- What holds of all rows holds of them in a join.
module _ {ℓ κ μ} {A : Type ℓ} {B : Type κ} (P : A → Type μ) where
  pairs-All : (x : A) (ys : List B) → P x → All (λ (r : A × B). P r.0) (map (λ y. (x, y)) ys)
  pairs-All x [] h = tt
  pairs-All x (y ∷ ys) h = (h, pairs-All x ys h)

  pub join-All :
      (on : A → B → Bool) (xs : List A) (ys : List B)
      → All P xs
      → All (λ (r : A × B). P r.0) (join on xs ys)
  unfolding join
  join-All on [] ys h = tt
  join-All on (x ∷ xs) ys h =
      All-append (λ (r : A × B). P r.0) (map (λ y. (x, y)) (select (on x) ys)) (join on xs ys)
        (pairs-All x (select (on x) ys) h.0) (join-All on xs ys h.1)

-- An update changes the rows one by one.
pub update_where-map {ℓ} :
    {A : Type ℓ} (p : A → Bool) (f : A → A) (xs : List A)
    → update_where p f xs ≡ map (λ x. if p x then f x else x) xs
unfolding update_where
update_where-map p f [] = refl
update_where-map p f (x ∷ xs) = rw (update_where-map p f xs)

pub all_mem {ℓ} : {A : Type ℓ} (xs : List A) → All (λ x. Mem x xs) xs
all_mem [] = tt
all_mem (x ∷ xs) = (mem-cons_self, All-weaken _ _ xs (λ y m. mem-cons_of_mem x m) (all_mem xs))
