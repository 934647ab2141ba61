-- ===== src/Prelude/Options.antt =====
-- Results that may be missing: an exception that a caller treats like any other, in a `do` block.
use mathlib.Core.Path.{◌≡◌, refl, sym}
use mathlib.Core.Option.{Option, none, some}
pub use mathlib.Core.Option.{map as map_option}
use mathlib.Core.List.{List, [], ◌∷◌}
use native.Mathlib.Omega.{arith}
use seans.Prelude.Lists.{All}

infixl 5 ◌>>=◌
abbrev pub ◌>>=◌ {ℓ κ} : {A : Type ℓ} {B : Type κ} → Option A → (A → Option B) → Option B
none >>= f = none
some a >>= f = f a

-- `[f(item) for item in items]`, where `f` may raise.
abbrev pub map_all {ℓ κ} : {A : Type ℓ} {B : Type κ} → (A → Option B) → List A → Option (List B)
map_all f [] = some []
map_all f (x ∷ xs) = f x >>= λ y. map_all f xs >>= λ ys. some (y ∷ ys)

abbrev pub or_else {ℓ} : {A : Type ℓ} → Option A → Option A → Option A
or_else none other = other
or_else (some a) other = some a

-- `item.get(key, default)`, where a key that is there has a value.
abbrev pub get {ℓ} : {A : Type ℓ} → Option A → A → A
get none default = default
get (some a) default = a

-- What a chain of results had at each step, when it came to its end.
pub >>=-some {ℓ κ} :
    {A : Type ℓ} {B : Type κ} (o : Option A) (f : A → Option B) (b : B)
    → (o >>= f) ≡ some b
    → (a : A) × (o ≡ some a) × (f a ≡ some b)
>>=-some none f b e = absurd (ground arith)
>>=-some (some a) f b e = (a, refl, e)

pub map_all-All {ℓ κ μ} :
    {A : Type ℓ} {B : Type κ} (P : B → Type μ) (f : A → Option B) (xs : List A) (ys : List B)
    → ((a : A) (b : B) → f a ≡ some b → P b)
    → map_all f xs ≡ some ys
    → All P ys
map_all-All P f [] ys h e = let same : [] ≡ ys = ground arith in rw (sym same) tt
map_all-All P f (x ∷ xs) ys h e =
    let (z, read, e') = >>=-some (f x) _ ys e in
    let (zs, later, e'') = >>=-some (map_all f xs) _ ys e' in
    let same : z ∷ zs ≡ ys = ground arith in
    rw (sym same) (h x z read, map_all-All P f xs zs h later)

pub or_else-some {ℓ κ} :
    {A : Type ℓ} (P : A → Type κ) (o p : Option A) (x : A)
    → ((y : A) → o ≡ some y → P y)
    → (p ≡ some x → P x)
    → or_else o p ≡ some x
    → P x
or_else-some P none p x left right e = right e
or_else-some P (some y) p x left right e = left x e
