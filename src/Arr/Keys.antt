-- ===== src/Arr/Keys.antt =====
-- The keys of the cache: which of them may be equal.
use Prim.Native.Char.{code}
use Prim.Native.String
use mathlib.Core.List.{append-nil}
use seans.Prelude.{
  ℕ, zero, suc, ◌≡◌, ◌∙◌, refl, sym, ap, String, Bool, true, false, [], ◌∷◌, ◌++◌, ◌||◌, ◌==◌,
  chars, chars-append, arith, if◌then◌else◌,
}
use seans.Prelude.Decimal.{str, IsPlain, str-IsPlain}
use seans.Prelude.Int.{ℤ}
use seans.Regex.{Text}
use seans.Arr.{series_list_key, series_key, episodes_key, movie_list_key, movie_key}

-- A key, before it is a text.
pub data Key : Type 0 where
  series_list : Key
  one_series : ℤ → Key
  episode_list : ℤ → Key
  movie_list : Key
  one_movie : ℤ → Key

abbrev pub key_text : Key → String
key_text series_list = series_list_key
key_text (one_series n) = series_key n
key_text (episode_list n) = episodes_key n
key_text movie_list = movie_list_key
key_text (one_movie n) = movie_key n

-- What stands under a key.
pub data Kind : Type 0 where
  all_series series episodes all_movies movie : Kind

abbrev pub key_kind : Key → Kind
key_kind series_list = Kind.all_series
key_kind (one_series n) = Kind.series
key_kind (episode_list n) = Kind.episodes
key_kind movie_list = Kind.all_movies
key_kind (one_movie n) = Kind.movie

abbrev drop : ℕ → Text → Text
drop zero cs = cs
drop (suc n) [] = []
drop (suc n) (c ∷ cs) = drop n cs

abbrev begins : ℕ → Text → Bool
begins n [] = false
begins n (c ∷ cs) = code c == n

abbrev has : ℕ → Text → Bool
has n [] = false
has n (c ∷ cs) = code c == n || has n cs

-- The kind read off the text: the letter after `arr:`, and what follows the second colon.
abbrev text_kind : Text → Kind
text_kind cs =
    let rest = drop 11 cs in
    if begins b'm' (drop 4 cs)
    then if begins b'l' rest then Kind.all_movies else Kind.movie
    else if begins b'l' rest
    then Kind.all_series
    else if has b'e' rest
    then Kind.episodes
    else Kind.series

plain-begins : (cs : Text) → IsPlain cs → begins b'l' cs ≡ false
plain-begins [] h = refl
plain-begins (c ∷ cs) h = ground (arith, h.0)

plain-has : (cs : Text) → IsPlain cs → has b'e' cs ≡ false
plain-has [] h = refl
plain-has (c ∷ cs) h = ground (arith, h.0, plain-has cs h.1)

episodes-has : (cs : Text) → has b'e' (cs ++ chars ":episodes") ≡ true
episodes-has [] = refl
episodes-has (c ∷ cs) = ground (arith, episodes-has cs)

episodes-begins : (cs : Text) → IsPlain cs → begins b'l' (cs ++ chars ":episodes") ≡ false
episodes-begins [] h = refl
episodes-begins (c ∷ cs) h = ground (arith, h.0)

key_text-kind : (k : Key) → text_kind (chars (key_text k)) ≡ key_kind k
key_text-kind series_list = refl
key_text-kind (one_series n) =
    rw
      (
        chars-append "arr:series:" (String.◌++◌ (str n) ""),
        chars-append (str n) "",
        append-nil (chars (str n)),
        plain-begins (chars (str n)) (str-IsPlain n),
        plain-has (chars (str n)) (str-IsPlain n),
      )
      refl
key_text-kind (episode_list n) =
    rw
      (
        chars-append "arr:series:" (String.◌++◌ (str n) ":episodes"),
        chars-append (str n) ":episodes",
        episodes-begins (chars (str n)) (str-IsPlain n),
        episodes-has (chars (str n)),
      )
      refl
key_text-kind movie_list = refl
key_text-kind (one_movie n) =
    rw
      (
        chars-append "arr:movies:" (String.◌++◌ (str n) ""),
        chars-append (str n) "",
        append-nil (chars (str n)),
        plain-begins (chars (str n)) (str-IsPlain n),
      )
      refl

-- Keys with one text are of one kind.
pub key_kind-of_text : (j k : Key) → key_text j ≡ key_text k → key_kind j ≡ key_kind k
key_kind-of_text j k e = sym (key_text-kind j) ∙ ap (λ s. text_kind (chars s)) e ∙ key_text-kind k
