-- ===== src/Table/Query.antt =====
-- `SELECT`, `JOIN`, `ORDER BY`, `UPDATE` and `SUM` over lists of rows.
use seans.Prelude.{ℕ, suc, Bool, Option, none, some, List, [], ◌∷◌, ◌++◌, map, if◌then◌else◌}
use seans.Prelude.Int.{ℤ, pos, ◌+ℤ◌}

module _ {ℓ} {A : Type ℓ} where
  -- `SELECT … WHERE p`
  unfoldable pub select : (A → Bool) → List A → List A
  select p [] = []
  select p (x ∷ xs) = if p x then x ∷ select p xs else select p xs

  -- The row of `scalar_one_or_none`, for a test that a primary key or a unique constraint lets at
  -- most one row pass.
  unfoldable pub find : (A → Bool) → List A → Option A
  find p [] = none
  find p (x ∷ xs) = if p x then some x else find p xs

  unfoldable pub exists : (A → Bool) → List A → Bool
  exists p [] = Bool.false
  exists p (x ∷ xs) = if p x then Bool.true else exists p xs

  -- `UPDATE … SET … WHERE p`, or the write of a changed object at a commit.
  unfoldable pub update_where : (A → Bool) → (A → A) → List A → List A
  update_where p f [] = []
  update_where p f (x ∷ xs) = (if p x then f x else x) ∷ update_where p f xs

  -- The `rowcount` of such an update.
  unfoldable pub count_where : (A → Bool) → List A → ℕ
  count_where p [] = 0
  count_where p (x ∷ xs) = if p x then suc (count_where p xs) else count_where p xs

  -- `INSERT … ON CONFLICT DO UPDATE`: `p` tests the unique columns, `f` sets the others.
  unfoldable pub upsert : (A → Bool) → (A → A) → A → List A → List A
  unfolding exists update_where
  upsert p f x xs = if exists p xs then update_where p f xs else xs ++ x ∷ []

  -- `coalesce(sum(f), 0)`
  unfoldable pub sum_by : (A → ℤ) → List A → ℤ
  sum_by f [] = pos 0
  sum_by f (x ∷ xs) = f x +ℤ sum_by f xs

  -- `ORDER BY`: `before y x` says that `y` stands strictly before `x`; ties keep their order.
  unfoldable pub insert_by : (A → A → Bool) → A → List A → List A
  insert_by before x [] = x ∷ []
  insert_by before x (y ∷ ys) = if before y x then y ∷ insert_by before x ys else x ∷ y ∷ ys

  unfoldable pub order_by : (A → A → Bool) → List A → List A
  unfolding insert_by
  order_by before [] = []
  order_by before (x ∷ xs) = insert_by before x (order_by before xs)

  -- `LIMIT 1` and `scalar_one_or_none`
  abbrev pub limit_one : List A → Option A
  limit_one [] = none
  limit_one (x ∷ xs) = some x

-- `JOIN … ON on`
module _ {ℓ κ} {A : Type ℓ} {B : Type κ} where
  unfoldable pub join : (A → B → Bool) → List A → List B → List (A × B)
  unfolding select
  join on [] ys = []
  join on (x ∷ xs) ys = map (λ y. (x, y)) (select (on x) ys) ++ join on xs ys
