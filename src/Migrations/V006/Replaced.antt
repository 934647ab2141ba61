-- ===== src/Migrations/V006/Replaced.antt =====
-- One text with the links of one endpoint turned into those of the other, and back.
use seans.Prelude.{zero, String, false, ◌≡◌, refl, ap, ◌∙◌, chars, text_of, chars-text_of}
use seans.Schema.{every}
use seans.Migrations.V006.{is_prefix, replace_all, has_link, old_endpoint, new_endpoint}
use seans.Migrations.V006.Texts.{
  contains-replace_from, replace_from-replace_from, replace_from-absent,
}

text_of-chars : (s : String) → text_of (chars s) ≡ s
text_of-chars String.[] = refl
text_of-chars (String.◌∷◌ c s) = ap (String.◌∷◌ c) (text_of-chars s)

pub replace_all-absent : (old new s : String) → has_link old s ≡ false → replace_all old new s ≡ s
unfolding has_link replace_all
replace_all-absent old new s h =
    rw (replace_from-absent (chars old) (chars new) (chars s) h) (text_of-chars s)

pub no_old_link :
    (s : String) → has_link old_endpoint (replace_all old_endpoint new_endpoint s) ≡ false
unfolding has_link replace_all is_prefix every
no_old_link s = rw chars-text_of (contains-replace_from _ _ _ refl refl (λ cs. refl) zero (chars s))

pub replaced_back :
    (s : String)
    → has_link new_endpoint s ≡ false
    → replace_all new_endpoint old_endpoint (replace_all old_endpoint new_endpoint s) ≡ s
unfolding has_link replace_all every
replaced_back s h =
    let back = replace_from-replace_from _ _ _ refl refl zero (chars s) h in
    rw chars-text_of (ap text_of back ∙ text_of-chars s)
