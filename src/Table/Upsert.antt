-- ===== src/Table/Upsert.antt =====
-- `INSERT … ON CONFLICT DO UPDATE`: one row with the unique columns, the others as they were.
use seans.Prelude.{
  ◌≤◌, ◌≡◌, refl, Bool, true, false, not, some, List, [], ◌∷◌, ◌++◌, length, arith, inl, inr, ◌⊎◌,
  Bool-cases,
}
use seans.Table.Query.{select, find, exists, update_where, upsert}

module _ {ℓ} {A : Type ℓ} (p : A → Bool) (f : A → A) (x : A) (fits : p x ≡ true)
    (keeps : (y : A) → p y ≡ true → p (f y) ≡ true) where
  -- Where one row at most had the columns, one has them afterwards.
  absent : (xs : List A) → exists p xs ≡ false → length (select p (xs ++ x ∷ [])) ≡ 1
  unfolding exists select
  absent [] e = ground arith
  absent (y ∷ xs) e = ground (arith, absent xs)

  none_left : (xs : List A) → length (select p xs) ≤ 0 → length (select p (update_where p f xs)) ≡ 0
  unfolding select update_where
  none_left [] h = refl
  none_left (y ∷ xs) h = ground (arith, none_left xs)

  present :
      (xs : List A)
      → exists p xs ≡ true
      → length (select p xs) ≤ 1
      → length (select p (update_where p f xs)) ≡ 1
  unfolding exists select update_where
  present [] e h = absurd (ground arith)
  present (y ∷ xs) e h = ground (arith, present xs, none_left xs, keeps y)

  pub upsert-one :
      (xs : List A) → length (select p xs) ≤ 1 → length (select p (upsert p f x xs)) ≡ 1
  unfolding upsert
  upsert-one xs h = elim (Bool-cases (exists p xs)) [
    | inl there ↦ rw there (present xs there h)
    | inr free ↦ rw free (absent xs free)
  ]

  -- The rows with other columns stay as they are.
  update-others :
      (xs : List A) → select (λ y. not (p y)) (update_where p f xs) ≡ select (λ y. not (p y)) xs
  unfolding select update_where
  update-others [] = refl
  update-others (y ∷ xs) = ground (arith, update-others xs, keeps y)

  append-others :
      (xs : List A) → select (λ y. not (p y)) (xs ++ x ∷ []) ≡ select (λ y. not (p y)) xs
  unfolding select
  append-others [] = ground arith
  append-others (y ∷ xs) = ground (arith, append-others xs)

  pub upsert-others :
      (xs : List A) → select (λ y. not (p y)) (upsert p f x xs) ≡ select (λ y. not (p y)) xs
  unfolding upsert
  upsert-others xs = elim (Bool-cases (exists p xs)) [
    | inl there ↦ rw there (update-others xs)
    | inr free ↦ rw free (append-others xs)
  ]

  -- What the new row and a changed row have in common, the row that is found has.
  update-found {κ} :
      (P : A → Type κ) (xs : List A)
      → ((y : A) → p y ≡ true → P (f y))
      → exists p xs ≡ true
      → (y : A) × (find p (update_where p f xs) ≡ some y) × P y
  unfolding exists find update_where
  update-found P [] sets e = absurd (ground arith)
  update-found P (y ∷ xs) sets e = elim (Bool-cases (p y)) [
    | inl here ↦ (f y, ground (arith, keeps y), sets y here)
    | inr next ↦
        let (z, found, set) = update-found P xs sets (ground arith) in (z, ground arith, set)
  ]

  append-found : (xs : List A) → exists p xs ≡ false → find p (xs ++ x ∷ []) ≡ some x
  unfolding exists find
  append-found [] e = ground arith
  append-found (y ∷ xs) e = ground (arith, append-found xs)

  pub upsert-found {κ} :
      (P : A → Type κ) (xs : List A)
      → P x
      → ((y : A) → p y ≡ true → P (f y))
      → (y : A) × (find p (upsert p f x xs) ≡ some y) × P y
  unfolding upsert
  upsert-found P xs fresh sets = elim (Bool-cases (exists p xs)) [
    | inl there ↦ rw there (update-found P xs sets there)
    | inr free ↦ rw free (x, append-found xs free, fresh)
  ]

module _ {ℓ} {A : Type ℓ} (p q : A → Bool) (f : A → A) (x : A) where
  -- What another query found, it finds, changed or not.
  pub find-update :
      (keeps : (y : A) → q y ≡ true → q (f y) ≡ true)
      (misses : (y : A) → q y ≡ false → q (f y) ≡ false) (xs : List A) (s : A)
      → find q xs ≡ some s
      → (t : A) × (find q (update_where p f xs) ≡ some t) × ((t ≡ s) ⊎ (t ≡ f s))
  unfolding find update_where
  find-update keeps misses [] s e = absurd (ground arith)
  find-update keeps misses (y ∷ xs) s e = elim (Bool-cases (q y)) [
    | inl here ↦ elim (Bool-cases (p y)) [
      | inl hit ↦ (f y, ground (arith, keeps y), inr (ground arith))
      | inr miss ↦ (y, ground arith, inl (ground arith))
    ]
    | inr next ↦
        let (t, found, old) = find-update keeps misses xs s (ground arith) in
        (t, ground (arith, misses y), old)
  ]

  find-append : (xs : List A) (s : A) → find q xs ≡ some s → find q (xs ++ x ∷ []) ≡ some s
  unfolding find
  find-append [] s e = absurd (ground arith)
  find-append (y ∷ xs) s e = ground (arith, find-append xs s)

  pub find-upsert :
      (keeps : (y : A) → q y ≡ true → q (f y) ≡ true)
      (misses : (y : A) → q y ≡ false → q (f y) ≡ false) (xs : List A) (s : A)
      → find q xs ≡ some s
      → (t : A) × (find q (upsert p f x xs) ≡ some t) × ((t ≡ s) ⊎ (t ≡ f s))
  unfolding upsert
  find-upsert keeps misses xs s e = elim (Bool-cases (exists p xs)) [
    | inl there ↦ rw there (find-update keeps misses xs s e)
    | inr free ↦ rw free (s, find-append xs s e, inl refl)
  ]

  -- A query for rows with other unique columns.
  module _ (apart : (y : A) → p y ≡ true → q y ≡ false)
      (still : (y : A) → p y ≡ true → p (f y) ≡ true) (fits : p x ≡ true) where
    select-update : (xs : List A) → select q (update_where p f xs) ≡ select q xs
    unfolding select update_where
    select-update [] = refl
    select-update (y ∷ xs) = ground (arith, select-update xs, apart y, still y, apart (f y))

    select-append_other : (xs : List A) → select q (xs ++ x ∷ []) ≡ select q xs
    unfolding select
    select-append_other [] = ground (arith, apart x)
    select-append_other (y ∷ xs) = ground (arith, select-append_other xs)

    pub select-upsert : (xs : List A) → select q (upsert p f x xs) ≡ select q xs
    unfolding upsert
    select-upsert xs = elim (Bool-cases (exists p xs)) [
      | inl there ↦ rw there (select-update xs)
      | inr free ↦ rw free (select-append_other xs)
    ]
