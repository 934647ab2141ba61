-- ===== src/Table/Order.antt =====
-- `ORDER BY` sorts: it keeps the rows, and none stands behind a row that it should precede.
use mathlib.Core.List.{Perm}
use mathlib.Core.List.Perm
use mathlib.Core.Path.{subst}
use seans.Prelude.{
  ◌≡◌, Bool, true, false, some, List, [], ◌∷◌, All, arith, inl, inr, Bool-cases, All-weaken,
}
use seans.Table.Query.{insert_by, order_by, limit_one}

module _ {ℓ} {A : Type ℓ} (before : A → A → Bool) where
  insert_by-perm : (x : A) (xs : List A) → Perm (insert_by before x xs) (x ∷ xs)
  unfolding insert_by
  insert_by-perm x [] = Perm.refl (x ∷ [])
  insert_by-perm x (y ∷ ys) = elim (Bool-cases (before y x)) [
    | inl e ↦ rw e (Perm.trans (Perm.cons y (insert_by-perm x ys)) (Perm.swap x y ys))
    | inr e ↦ rw e (Perm.refl (x ∷ y ∷ ys))
  ]

  -- The rows are those that came in, each as often.
  pub order_by-perm : (xs : List A) → Perm (order_by before xs) xs
  unfolding order_by
  order_by-perm [] = Perm.refl []
  order_by-perm (x ∷ xs) =
      Perm.trans (insert_by-perm x (order_by before xs)) (Perm.cons x (order_by-perm xs))

  insert_by-All {κ} :
      (P : A → Type κ) (x : A) (xs : List A) → P x → All P xs → All P (insert_by before x xs)
  unfolding insert_by
  insert_by-All P x [] hx h = (hx, tt)
  insert_by-All P x (y ∷ ys) hx h = ground (arith, insert_by-All P x ys hx h.1)

  pub order_by-All {κ} : (P : A → Type κ) (xs : List A) → All P xs → All P (order_by before xs)
  unfolding order_by
  order_by-All P [] h = tt
  order_by-All P (x ∷ xs) h = insert_by-All P x _ h.0 (order_by-All P xs h.1)

  All-insert_by {κ} :
      (P : A → Type κ) (x : A) (xs : List A) → All P (insert_by before x xs) → P x × All P xs
  unfolding insert_by
  All-insert_by P x [] h = h
  All-insert_by P x (y ∷ ys) h = ground (arith, All-insert_by P x ys)

  -- What holds of the sorted rows holds of the rows.
  pub All-order_by {κ} : (P : A → Type κ) (xs : List A) → All P (order_by before xs) → All P xs
  unfolding order_by
  All-order_by P [] h = tt
  All-order_by P (x ∷ xs) h =
      let (hx, rest) = All-insert_by P x (order_by before xs) h in (hx, All-order_by P xs rest)

  -- `y` need not stand before `x`.
  abbrev pub Follows : A → A → Type 0
  Follows x y = before y x ≡ false

  abbrev pub IsSorted : List A → Type ℓ
  IsSorted [] = Unit
  IsSorted (x ∷ xs) = All (Follows x) xs × IsSorted xs

module _ {ℓ} {A : Type ℓ} (before : A → A → Bool)
    (asym : (x y : A) → before x y ≡ true → before y x ≡ false)
    (trans : (x y z : A) → before y x ≡ false → before z y ≡ false → before z x ≡ false) where
  insert_by-IsSorted :
      (x : A) (xs : List A) → IsSorted before xs → IsSorted before (insert_by before x xs)
  unfolding insert_by
  insert_by-IsSorted x [] h = (tt, tt)
  insert_by-IsSorted x (y ∷ ys) h = elim (Bool-cases (before y x)) [
    | inl e ↦ rw e (insert_by-All before _ x ys (asym y x e) h.0, insert_by-IsSorted x ys h.1)
    | inr e ↦ rw e ((e, All-weaken _ _ ys (λ z hz. trans x y z e hz) h.0), h)
  ]

  pub order_by-IsSorted : (xs : List A) → IsSorted before (order_by before xs)
  unfolding order_by
  order_by-IsSorted [] = tt
  order_by-IsSorted (x ∷ xs) = insert_by-IsSorted x _ (order_by-IsSorted xs)

  sorted_head :
      (xs : List A) (x : A) → IsSorted before xs → limit_one xs ≡ some x → All (Follows before x) xs
  sorted_head [] x h e = tt
  sorted_head (y ∷ ys) x h e =
      let same : y ≡ x = cc in
      subst (λ z. All (Follows before z) (y ∷ ys)) same (ground (arith, asym y y), h.0)

  -- The row that `LIMIT 1` keeps: no row stands before it.
  pub limit_one-order_by :
      (xs : List A) (x : A) → limit_one (order_by before xs) ≡ some x → All (Follows before x) xs
  limit_one-order_by xs x e =
      All-order_by before _ xs (sorted_head (order_by before xs) x (order_by-IsSorted xs) e)
