-- ===== src/Regex/Language.antt =====
-- The language of a pattern, with no search order in it, and the proof that `search` decides it.
use Prim.Native.Char.{Char}
use mathlib.Core.List.{append_assoc}
use seans.Prelude.{
  ◌≡◌, ◌∙◌, refl, sym, ap, ◌↔◌, ◌⊎◌, inl, inr, true, List, [], ◌∷◌, ◌++◌, map, All, All-append,
  All-map_to, All-weaken, arith, Bool-cases,
}
use seans.Regex.{
  Text, Class, Regex, one, empty, seq, either, many, each, runs, splits, is_nonempty, search,
}

-- The texts that a pattern matches whole.
abbrev pub Lang : Regex → Text → Type 0
Lang (one p) w = (c : Char) × (w ≡ c ∷ []) × (p c ≡ true)
Lang empty w = w ≡ []
Lang (seq r s) w = (u : Text) × (v : Text) × (w ≡ u ++ v) × Lang r u × Lang s v
Lang (either r s) w = Lang r w ⊎ Lang s w
Lang (many p) w = All (λ c. p c ≡ true) w

-- Somewhere in the text stands a match.
abbrev pub Occurs : Regex → Text → Type 0
Occurs r cs = (pre : Text) × (mid : Text) × (post : Text) × (cs ≡ pre ++ (mid ++ post)) × Lang r mid

-- The pairs that `splits` gives are splits of the text into a match and the rest.
abbrev pub IsSplit : Regex → Text → Text × Text → Type 0
IsSplit r cs x = (cs ≡ x.0 ++ x.1) × Lang r x.0

All-each {ℓ κ μ} :
    {A : Type ℓ} {B : Type κ} (P : A → Type μ) (Q : B → Type μ) (f : A → List B) (xs : List A)
    → ((a : A) → P a → All Q (f a))
    → All P xs
    → All Q (each f xs)
unfolding each
All-each P Q f [] keep h = tt
All-each P Q f (x ∷ xs) keep h =
    All-append Q (f x) (each f xs) (keep x h.0) (All-each P Q f xs keep h.1)

runs_sound : (p : Class) (cs : Text) → All (IsSplit (many p) cs) (runs p cs)
unfolding runs
runs_sound p [] = ((refl, tt), tt)
runs_sound p (c ∷ cs) = elim (Bool-cases (p c)) [
  | inr off ↦ rw off ((refl, tt), tt)
  | inl on ↦ rw on (
      All-append _ _ _
        (All-map_to (IsSplit (many p) cs) _ _ (runs p cs) (λ r h. (ap (◌∷◌ c) h.0, (on, h.1)))
          (runs_sound p cs))
        ((refl, tt), tt))
]

pub splits_sound : (r : Regex) (cs : Text) → All (IsSplit r cs) (splits r cs)
unfolding splits
splits_sound (one p) [] = tt
splits_sound (one p) (c ∷ cs) = elim (Bool-cases (p c)) [
  | inl on ↦ rw on ((refl, (c, refl, on)), tt)
  | inr off ↦ rw off tt
]
splits_sound empty cs = ((refl, refl), tt)
splits_sound (seq r s) cs =
    All-each (IsSplit r cs) _ _ (splits r cs)
      (λ x h.
        All-map_to (IsSplit s x.1) _ _ (splits s x.1)
          (λ y k.
            (h.0 ∙ ap (◌++◌ x.0) k.0 ∙ sym (append_assoc x.0 y.0 y.1), (x.0, y.0, refl, h.1, k.1)))
          (splits_sound s x.1))
      (splits_sound r cs)
splits_sound (either r s) cs =
    All-append _ (splits r cs) (splits s cs)
      (All-weaken (IsSplit r cs) _ (splits r cs) (λ x h. (h.0, inl h.1)) (splits_sound r cs))
      (All-weaken (IsSplit s cs) _ (splits s cs) (λ x h. (h.0, inr h.1)) (splits_sound s cs))
splits_sound (many p) cs = runs_sound p cs

-- To be in a list.
abbrev Among : {A : Type 0} → A → List A → Type 0
Among x [] = ⊥
Among x (y ∷ ys) = (y ≡ x) ⊎ Among x ys

Among-append_left : {A : Type 0} (x : A) (xs ys : List A) → Among x xs → Among x (xs ++ ys)
Among-append_left x [] ys h = absurd h
Among-append_left x (z ∷ xs) ys (inl e) = inl e
Among-append_left x (z ∷ xs) ys (inr h) = inr (Among-append_left x xs ys h)

Among-append_right : {A : Type 0} (x : A) (xs ys : List A) → Among x ys → Among x (xs ++ ys)
Among-append_right x [] ys h = h
Among-append_right x (z ∷ xs) ys h = inr (Among-append_right x xs ys h)

Among-map :
    {A : Type 0} {B : Type 0} (f : A → B) (x : A) (xs : List A)
    → Among x xs
    → Among (f x) (map f xs)
Among-map f x [] h = absurd h
Among-map f x (z ∷ xs) (inl e) = inl (ap f e)
Among-map f x (z ∷ xs) (inr h) = inr (Among-map f x xs h)

Among-each :
    {A : Type 0} {B : Type 0} (f : A → List B) (x : A) (y : B) (xs : List A)
    → Among x xs
    → Among y (f x)
    → Among y (each f xs)
unfolding each
Among-each f x y [] h k = absurd h
Among-each f x y (z ∷ xs) (inl e) k = Among-append_left y (f z) (each f xs) (rw e k)
Among-each f x y (z ∷ xs) (inr h) k =
    Among-append_right y (f z) (each f xs) (Among-each f x y xs h k)

runs_stop : (p : Class) (rest : Text) → Among ([], rest) (runs p rest)
unfolding runs
runs_stop p [] = inl refl
runs_stop p (c ∷ rest) = elim (Bool-cases (p c)) [
  | inl on ↦ rw on (
      Among-append_right ([], c ∷ rest) (map (λ r. (c ∷ r.0, r.1)) (runs p rest))
        (([], c ∷ rest) ∷ []) (inl refl))
  | inr off ↦ rw off (inl refl)
]

runs_complete : (p : Class) (w rest : Text) → Lang (many p) w → Among (w, rest) (runs p (w ++ rest))
unfolding runs
runs_complete p [] rest h = runs_stop p rest
runs_complete p (c ∷ w) rest (on, h) = rw on (
    Among-append_left (c ∷ w, rest) (map (λ r. (c ∷ r.0, r.1)) (runs p (w ++ rest)))
      (([], c ∷ (w ++ rest)) ∷ [])
      (Among-map (λ r. (c ∷ r.0, r.1)) (w, rest) (runs p (w ++ rest)) (runs_complete p w rest h)))

splits_complete : (r : Regex) (w rest : Text) → Lang r w → Among (w, rest) (splits r (w ++ rest))
unfolding splits
splits_complete (one p) w rest (c, e, on) = rw (e, on) (inl refl)
splits_complete empty w rest e = rw e (inl refl)
splits_complete (seq r s) w rest (u, v, e, hu, hv) =
    rw (e, append_assoc u v rest)
      (Among-each (λ x. map (λ y. (x.0 ++ y.0, y.1)) (splits s x.1)) (u, v ++ rest) (u ++ v, rest)
        (splits r (u ++ (v ++ rest))) (splits_complete r u (v ++ rest) hu)
        (Among-map (λ y. (u ++ y.0, y.1)) (v, rest) (splits s (v ++ rest))
          (splits_complete s v rest hv)))
splits_complete (either r s) w rest (inl h) =
    Among-append_left (w, rest) (splits r (w ++ rest)) (splits s (w ++ rest))
      (splits_complete r w rest h)
splits_complete (either r s) w rest (inr h) =
    Among-append_right (w, rest) (splits r (w ++ rest)) (splits s (w ++ rest))
      (splits_complete s w rest h)
splits_complete (many p) w rest h = runs_complete p w rest h

nonempty_of_Among : {A : Type 0} (x : A) (xs : List A) → Among x xs → is_nonempty xs ≡ true
nonempty_of_Among x [] h = absurd h
nonempty_of_Among x (y ∷ ys) h = refl

All-nonempty {ℓ κ} :
    {A : Type ℓ} (P : A → Type κ) (xs : List A) → All P xs → is_nonempty xs ≡ true → (x : A) × P x
All-nonempty P [] h e = absurd (ground arith)
All-nonempty P (x ∷ xs) h e = (x, h.0)

-- A match at the start.
starts : (r : Regex) (cs : Text) → is_nonempty (splits r cs) ≡ true → Occurs r cs
starts r cs h =
    let ((mid, post), (whole, fits)) =
      All-nonempty (IsSplit r cs) (splits r cs) (splits_sound r cs) h in
    ([], mid, post, whole, fits)

search_sound : (r : Regex) (cs : Text) → search r cs ≡ true → Occurs r cs
unfolding search
search_sound r [] h = starts r [] h
search_sound r (c ∷ cs) h = elim (Bool-cases (is_nonempty (splits r (c ∷ cs)))) [
  | inl here ↦ starts r (c ∷ cs) here
  | inr later ↦
      let (pre, mid, post, whole, fits) = search_sound r cs (rw later at h) in
      (c ∷ pre, mid, post, ap (◌∷◌ c) whole, fits)
]

found_here : (r : Regex) (mid post : Text) → Lang r mid → search r (mid ++ post) ≡ true
unfolding search
found_here r mid post h =
    from_start (mid ++ post)
      (nonempty_of_Among (mid, post) (splits r (mid ++ post)) (splits_complete r mid post h))
  where
    from_start : (cs : Text) → is_nonempty (splits r cs) ≡ true → search r cs ≡ true
    from_start [] e = e
    from_start (c ∷ cs) e = rw e

search_complete :
    (r : Regex) (pre mid post : Text) → Lang r mid → search r (pre ++ (mid ++ post)) ≡ true
unfolding search
search_complete r [] mid post h = found_here r mid post h
search_complete r (c ∷ pre) mid post h = ground (arith, search_complete r pre mid post h)

-- `search` finds a pattern exactly where a match stands.
pub search_iff : (r : Regex) (cs : Text) → (search r cs ≡ true) ↔ Occurs r cs
search_iff r cs = (
  search_sound r cs,
  λ o. let (pre, mid, post, whole, fits) = o in rw whole (search_complete r pre mid post fits),
)
