-- ===== src/Schema/Consistent.antt =====
-- A schema with no dangling reference, and what the operations of an upgrade keep of it.
use seans.Prelude.{
  String, Bool, true, false, not, Option, none, some, List, [], ◌∷◌, ◌++◌, ◌&&◌, ◌≡◌, refl, sym,
  arith, ◌⊎◌, str_eq, Bool-cases, inl, inr, if◌then◌else◌,
}
use seans.Prelude.Options.{map_option}
use seans.Table.{find, exists}
use seans.Schema.{TableDef, every, given, has_column, find_table, points_to, is_sound, alter_table}

-- Every foreign key of the tables refers to a column that is there, every key stands on columns
-- of its table.
unfoldable pub is_consistent : List TableDef → Bool
unfolding every is_sound
is_consistent ts = every (is_sound ts) ts

module _ {ℓ} {A : Type ℓ} (p q : A → Bool) (step : (a : A) → p a ≡ true → q a ≡ true) where
  pub every-weaken : (xs : List A) → every p xs ≡ true → every q xs ≡ true
  unfolding every
  every-weaken [] h = refl
  every-weaken (x ∷ xs) h = ground (arith, every-weaken xs, step x)

module _ {ℓ} {A : Type ℓ} (p : A → Bool) where
  pub every-append : (xs ys : List A) → every p (xs ++ ys) ≡ (every p xs && every p ys)
  unfolding every
  every-append [] ys = refl
  every-append (x ∷ xs) ys = ground (arith, every-append xs ys)

  pub exists-append : (xs ys : List A) → exists p xs ≡ true → exists p (xs ++ ys) ≡ true
  unfolding exists
  exists-append [] ys h = absurd (ground arith)
  exists-append (x ∷ xs) ys h = ground (arith, exists-append xs ys)

  pub exists-every : (xs : List A) → every (λ x. not (p x)) xs ≡ true → exists p xs ≡ false
  unfolding exists every
  exists-every [] h = refl
  exists-every (x ∷ xs) h = ground (arith, exists-every xs)

  pub every-exists : (xs : List A) → exists p xs ≡ false → every (λ x. not (p x)) xs ≡ true
  unfolding exists every
  every-exists [] h = refl
  every-exists (x ∷ xs) h = ground (arith, every-exists xs)

pub map_option-some {ℓ κ} :
    {A : Type ℓ} {B : Type κ} (g : A → B) (o : Option A) (b : B)
    → map_option g o ≡ some b
    → (a : A) × (o ≡ some a) × (g a ≡ b)
map_option-some g none b e = absurd (ground arith)
map_option-some g (some a) b e = (a, refl, ground arith)

pub given-some {ℓ} :
    {A : Type ℓ} (b : Bool) (o : Option A) (a : A) → given b o ≡ some a → (b ≡ true) × (o ≡ some a)
given-some true o a e = (refl, e)
given-some false o a e = absurd (ground arith)

pub points_to-cons :
    (t : TableDef) (ts : List TableDef) (m c : String)
    → points_to (t ∷ ts) m c ≡ (if str_eq t.name m then has_column c t else points_to ts m c)
unfolding points_to find_table find
points_to-cons t ts m c = ground arith

-- A change of one table that `f` makes.
module _ (n : String) (f : TableDef → Option TableDef) where
  -- The first table of the name is this one, or stands further on.
  pub alter_cases :
      (t : TableDef) (ts ts' : List TableDef)
      → alter_table n f (t ∷ ts) ≡ some ts'
      → ((str_eq t.name n ≡ true) × (t' : TableDef) × (f t ≡ some t') × (t' ∷ ts ≡ ts'))
        ⊎ ((str_eq t.name n ≡ false)
            × (us : List TableDef) × (alter_table n f ts ≡ some us)
            × (t ∷ us ≡ ts'))
  unfolding alter_table
  alter_cases t ts ts' e = elim (Bool-cases (str_eq t.name n)) [
    | inl here ↦
        let (t', set, same) = map_option-some (λ t'. t' ∷ ts) (f t) ts' (ground arith) in
        inl (here, t', set, same)
    | inr next ↦
        let (us, later, same) =
          map_option-some (λ us. t ∷ us) (alter_table n f ts) ts' (ground arith) in
        inr (next, us, later, same)
  ]

  pub nothing_altered : (ts' : List TableDef) → alter_table n f [] ≡ some ts' → ⊥
  unfolding alter_table
  nothing_altered ts' e = ground arith

  pub alter-found :
      (ts ts' : List TableDef)
      → alter_table n f ts ≡ some ts'
      → (t t' : TableDef) × (find_table n ts ≡ some t) × (f t ≡ some t')
  unfolding find_table find
  alter-found [] ts' e = absurd (nothing_altered ts' e)
  alter-found (t ∷ ts) ts' e = elim (alter_cases t ts ts' e) [
    | inl (here, t', set, _) ↦ (t, t', ground arith, set)
    | inr (next, us, later, _) ↦
        let (u, u', found, set) = alter-found ts us later in (u, u', ground arith, set)
  ]

  -- A test that the tables passed, and those that the change keeps or makes pass.
  pub alter-every :
      (p q : TableDef → Bool)
      → ((t : TableDef) → p t ≡ true → q t ≡ true)
      → ((t t' : TableDef) → p t ≡ true → f t ≡ some t' → q t' ≡ true)
      → (ts ts' : List TableDef) → every p ts ≡ true
      → alter_table n f ts ≡ some ts'
      → every q ts' ≡ true
  unfolding every
  alter-every p q keep step [] ts' h e = absurd (nothing_altered ts' e)
  alter-every p q keep step (t ∷ ts) ts' h e = elim (alter_cases t ts ts' e) [
    | inl (here, t', set, same) ↦
        rw (sym same) (ground (arith, step t t', every-weaken p q keep ts))
    | inr (next, us, later, same) ↦
        rw (sym same) (ground (arith, keep t, alter-every p q keep step ts us))
  ]

  -- A change that loses no column loses no target of a foreign key.
  module _
      (grows : (t t' : TableDef)
        → f t ≡ some t'
        → (t'.name ≡ t.name)
          × ((c : String) → has_column c t ≡ true → has_column c t' ≡ true)) where
    pub alter-points_to :
        (m c : String) (ts ts' : List TableDef)
        → alter_table n f ts ≡ some ts'
        → points_to ts m c ≡ true
        → points_to ts' m c ≡ true
    alter-points_to m c [] ts' e h = absurd (nothing_altered ts' e)
    alter-points_to m c (t ∷ ts) ts' e h =
        let was : (if str_eq t.name m then has_column c t else points_to ts m c) ≡ true =
          rw (sym (points_to-cons t ts m c)) h in
        elim (alter_cases t ts ts' e) [
          | inl (here, t', set, same) ↦
              let (named, more) = grows t t' set in
              rw (sym same, points_to-cons, named) (ground (arith, more c))
          | inr (next, us, later, same) ↦
              rw (sym same, points_to-cons) (ground (arith, alter-points_to m c ts us))
        ]
