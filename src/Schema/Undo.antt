-- ===== src/Schema/Undo.antt =====
-- What the operations of an upgrade do is undone by those of the downgrade.
use seans.Prelude.{
  String, Bool, true, false, not, Option, some, List, [], ◌∷◌, ◌++◌, ◌≡◌, refl, sym, arith, str_eq,
  str_eq_iff, Bool-cases, inl, inr, if◌then◌else◌,
}
use seans.Table.{exists, select, update_where}
use seans.Schema.{
  TableDef, Column, Key, every, has_column, is_on_columns, is_sound, alter_table, append_column,
  delete_column, set_nullable, append_index, delete_index, has_index, is_named,
}
use seans.Schema.Consistent.{alter_cases, nothing_altered, every-weaken, every-exists}

pub str_eq_self : (s : String) → str_eq s s ≡ true
str_eq_self s = (str_eq_iff s s).1 refl

pub alter-undone :
    (n : String) (f g : TableDef → Option TableDef) (p : TableDef → Bool)
    → ((t t' : TableDef) → p t ≡ true → f t ≡ some t' → (t'.name ≡ t.name) × (g t' ≡ some t))
    → (ts ts' : List TableDef) → every p ts ≡ true
    → alter_table n f ts ≡ some ts'
    → alter_table n g ts' ≡ some ts
unfolding every alter_table
alter-undone n f g p back [] ts' h e = absurd (nothing_altered n f ts' e)
alter-undone n f g p back (t ∷ ts) ts' h e = elim (alter_cases n f t ts ts' e) [
  | inl (here, t', set, same) ↦
      let (named, restored) = back t t' (ground arith) set in
      let test : str_eq t'.name n ≡ true = rw named here in rw (sym same, test, restored) refl
  | inr (next, us, later, same) ↦
      rw (sym same, next, alter-undone n f g p back ts us (ground arith) later) refl
]

module _ {ℓ} {A : Type ℓ} (p : A → Bool) where
  pub select-every : (xs : List A) → every p xs ≡ true → select p xs ≡ xs
  unfolding select every
  select-every [] h = refl
  select-every (x ∷ xs) h = ground (arith, select-every xs)

  select-last :
      (xs : List A) (x : A) → every p xs ≡ true → p x ≡ false → select p (xs ++ x ∷ []) ≡ xs
  unfolding select every
  select-last [] x h miss = ground arith
  select-last (y ∷ xs) x h miss = ground (arith, select-last xs x)

  pub exists-last : (xs : List A) (x : A) → p x ≡ true → exists p (xs ++ x ∷ []) ≡ true
  unfolding exists
  exists-last [] x h = ground arith
  exists-last (y ∷ xs) x h = ground (arith, exists-last xs x)

-- A name that is no column's is in no list of columns.
absent_column :
    (t : TableDef) (cn : String) (ns : List String)
    → has_column cn t ≡ false
    → every (λ n. has_column n t) ns ≡ true
    → not (exists (λ n. str_eq n cn) ns) ≡ true
unfolding every exists
absent_column t cn [] free h = refl
absent_column t cn (n ∷ ns) free h = elim (Bool-cases (str_eq n cn)) [
  | inl same ↦
      let eq : n ≡ cn = (str_eq_iff n cn).0 same in
      let there : has_column cn t ≡ true = rw (sym eq) (ground arith) in absurd (ground arith)
  | inr other ↦ ground (arith, absent_column t cn ns)
]

pub append_column-some :
    (c : Column) (t t' : TableDef)
    → append_column c t ≡ some t'
    → (has_column c.name t ≡ false) × (record t { columns = t.columns ++ c ∷ [] } ≡ t')
unfolding append_column
append_column-some c t t' e = elim (Bool-cases (has_column c.name t)) [
  | inl there ↦ absurd (ground arith)
  | inr free ↦ (free, ground arith)
]

pub delete_column-append_column :
    (ts : List TableDef) (c : Column) (t t' : TableDef)
    → is_sound ts t ≡ true
    → append_column c t ≡ some t'
    → (t'.name ≡ t.name) × (delete_column c.name t' ≡ some t)
unfolding delete_column is_sound has_column is_on_columns
delete_column-append_column ts c t t' sound e =
    let (free, same) = append_column-some c t t' e in
    let columns : select (λ d. not (str_eq d.name c.name)) (t.columns ++ c ∷ []) ≡ t.columns =
      select-last (λ d. not (str_eq d.name c.name)) t.columns c
        (every-exists (λ d. str_eq d.name c.name) t.columns free) (rw (str_eq_self c.name) refl) in
    let keys : select (λ k. not (exists (λ n. str_eq n c.name) k.columns)) t.keys ≡ t.keys =
      select-every (λ k. not (exists (λ n. str_eq n c.name) k.columns)) t.keys
        (every-weaken (is_on_columns t) _ (λ k. absent_column t c.name k.columns free) t.keys
          (ground arith)) in
    let there = exists-last (λ d. str_eq d.name c.name) t.columns c (str_eq_self c.name) in
    rw (sym same) (refl, rw (there, columns, keys) refl)

-- A column of the name that has the other nullability.
unfoldable pub differs : String → Bool → TableDef → Bool
unfolding every
differs cn nullable t =
    every
      (λ c. if str_eq c.name cn then (if nullable then not c.nullable else c.nullable) else true)
      t.columns

flipped : (b m : Bool) → (if b then not m else m) ≡ true → not b ≡ m
flipped b m h = ground arith

restore_nullable :
    (cn : String) (b : Bool) (cs : List Column)
    → every (λ c. if str_eq c.name cn then (if b then not c.nullable else c.nullable) else true) cs
      ≡ true
    → update_where
        (λ c. str_eq c.name cn)
        (λ c. record c { nullable = not b })
        (update_where (λ c. str_eq c.name cn) (λ c. record c { nullable = b }) cs)
      ≡ cs
unfolding every update_where
restore_nullable cn b [] h = refl
restore_nullable cn b (c ∷ cs) h = elim (Bool-cases (str_eq c.name cn)) [
  | inl here ↦
      let back : not b ≡ c.nullable = flipped b c.nullable (ground arith) in
      rw (here, here, back, restore_nullable cn b cs (ground arith)) refl
  | inr next ↦ rw (next, next, restore_nullable cn b cs (ground arith)) refl
]

pub has_column-update_where :
    (n cn : String) (b : Bool) (cs : List Column)
    → exists (λ c. str_eq c.name n) cs ≡ true
    → exists
        (λ c. str_eq c.name n)
        (update_where (λ c. str_eq c.name cn) (λ c. record c { nullable = b }) cs)
      ≡ true
unfolding exists update_where
has_column-update_where n cn b [] h = h
has_column-update_where n cn b (c ∷ cs) h = ground (arith, has_column-update_where n cn b cs)

pub set_nullable-some :
    (cn : String) (b : Bool) (t t' : TableDef)
    → set_nullable cn b t ≡ some t'
    → (has_column cn t ≡ true)
      × (record t {
        columns = update_where (λ c. str_eq c.name cn) (λ c. record c { nullable = b }) t.columns;
      }
          ≡ t')
unfolding set_nullable
set_nullable-some cn b t t' e = elim (Bool-cases (has_column cn t)) [
  | inl there ↦ (there, ground arith)
  | inr free ↦ absurd (ground arith)
]

pub set_nullable-set_nullable :
    (cn : String) (b : Bool) (t t' : TableDef)
    → differs cn b t ≡ true
    → set_nullable cn b t ≡ some t'
    → (t'.name ≡ t.name) × (set_nullable cn (not b) t' ≡ some t)
unfolding set_nullable differs has_column
set_nullable-set_nullable cn b t t' h e =
    let (there, same) = set_nullable-some cn b t t' e in
    rw (sym same) (
      refl,
      rw (has_column-update_where cn cn b t.columns there, restore_nullable cn b t.columns h) refl,
    )

pub append_index-some :
    (k : Key) (t t' : TableDef)
    → append_index k t ≡ some t'
    → (is_on_columns t k ≡ true) × (record t { keys = k ∷ t.keys } ≡ t')
unfolding append_index
append_index-some k t t' e = elim (Bool-cases (is_on_columns t k)) [
  | inl there ↦ (there, ground arith)
  | inr free ↦ absurd (ground arith)
]

pub delete_index-append_index :
    (n : String) (k : Key) (t t' : TableDef)
    → is_named n k ≡ true
    → not (has_index n t) ≡ true
    → append_index k t ≡ some t'
    → (t'.name ≡ t.name) × (delete_index n t' ≡ some t)
unfolding delete_index has_index select exists
delete_index-append_index n k t t' named free e =
    let (there, same) = append_index-some k t t' e in
    let keys =
      select-every (λ j. not (is_named n j)) t.keys
        (every-exists (is_named n) t.keys (ground arith)) in
    rw (sym same, named, keys) (refl, refl)
