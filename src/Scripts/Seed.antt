-- ===== src/Scripts/Seed.antt =====
-- scripts/seed.py: the demo user and three media. `hash_password` is passlib's bcrypt, `same_email`
-- the equality of `CITEXT`, `json` the text of the column `raw`, and `bind_timestamp` what the driver
-- asyncpg sends for a text as the value of a timestamp column, if it does not raise. The tables are
-- there already.
pub mod Refused
use seans.Prelude.{
  ℕ, suc, String, Bool, true, Option, none, some, List, [], ◌∷◌, ◌++◌, ◌==◌, if◌then◌else◌,
}
use seans.Prelude.Int.{pos}
use seans.Prelude.Options.{◌>>=◌}
use seans.Table.{find, upsert, update_where}
use seans.Models.{Database, User, MediaItem, KpType}
use seans.Kinopoisk.{has_kp_id, new_media}
use seans.Kinopoisk.Fixtures.{MediaFields}

-- What the script is given by its packages.
pub record Packages : Type 0 where
  pub hash_password : String → String
  pub same_email : String → String → Bool
  pub json : MediaFields → String
  pub bind_timestamp : String → Option ℕ

abbrev pub demo_email : String
demo_email = "demo@seans.local"

abbrev pub demo_password : String
demo_password = "demo12345"

-- `MEDIA_FIXTURES`, which have no `tmdb_id`.
abbrev pub media_fixtures : List MediaFields
media_fixtures =
    record {
      kp_id = some (pos 11154872);
      kp_type = KpType.movie;
      title = "Токийский гуль";
      original_title = some "Tokyo Ghoul";
      year = some (pos 2017);
      poster_url = some "https://st.kp.yandex.net/images/film_iphone/iphone360_11154872.jpg";
      overview =
          some "Студент Канеки попадает в мир гулей — существ, питающихся человеческой плотью.";
      rating_kp = some (pos 64);
      genres = "ужасы" ∷ "боевик" ∷ "фэнтези" ∷ [];
      tmdb_id = none;
    }
    ∷ record {
      kp_id = some (pos 258687);
      kp_type = KpType.movie;
      title = "Интерстеллар";
      original_title = some "Interstellar";
      year = some (pos 2014);
      poster_url = some "https://st.kp.yandex.net/images/film_iphone/iphone360_258687.jpg";
      overview =
          some "Космическая экспедиция через червоточину в поисках нового дома для человечества.";
      rating_kp = some (pos 86);
      genres = "фантастика" ∷ "драма" ∷ "приключения" ∷ [];
      tmdb_id = none;
    }
    ∷ record {
      kp_id = some (pos 464963);
      kp_type = KpType.tv;
      title = "Игра престолов";
      original_title = some "Game of Thrones";
      year = some (pos 2011);
      poster_url = some "https://st.kp.yandex.net/images/film_iphone/iphone360_464963.jpg";
      overview = some "Благородные дома Вестероса ведут борьбу за Железный трон.";
      rating_kp = some (pos 87);
      genres = "фэнтези" ∷ "драма" ∷ "боевик" ∷ [];
      tmdb_id = none;
    }
    ∷ []

-- The new row, with the defaults of the other columns.
abbrev pub demo_user : Packages → ℕ → ℕ → User
demo_user packages id now = record {
  id = id;
  email = demo_email;
  password_hash = packages.hash_password demo_password;
  display_name = "Demo User";
  is_admin = true;
  can_invite = Bool.false;
  plan = "free";
  plan_expires_at = none;
  quota_bytes = pos 10737418240;
  created_at = now;
}

-- `if not demo.is_admin: demo.is_admin = True`
abbrev pub promote : User → User
promote demo = if demo.is_admin then demo else record demo { is_admin = true }

abbrev pub seed_found : Packages → ℕ → ℕ → Option User → List User → List User
seed_found packages id now none users = users ++ demo_user packages id now ∷ []
seed_found packages id now (some demo) users =
    update_where (λ u. u.id == demo.id) (λ _. promote demo) users

unfoldable pub seed_user : Packages → ℕ → ℕ → List User → List User
unfolding find update_where
seed_user packages id now users =
    seed_found packages id now (find (λ u. packages.same_email u.email demo_email) users) users

-- `set_={"title": …, "updated_at": "now()"}`, with the value that the driver sends.
abbrev pub set_title : ℕ → MediaFields → MediaItem → MediaItem
set_title updated_at item row = record row { title = item.title; updated_at = updated_at }

-- `ids n` is the `uuid4()` of the n-th fixture. A statement whose values the driver does not take
-- raises, whether there is a conflict or not.
unfoldable pub seed_media :
    Packages → (ℕ → ℕ) → ℕ → List MediaFields → List MediaItem → Option (List MediaItem)
unfolding upsert
seed_media packages ids now [] rows = some rows
seed_media packages ids now (item ∷ items) rows = do
  updated_at ← packages.bind_timestamp "now()"
  seed_media packages (λ n. ids (suc n)) now items
      (upsert (has_kp_id item.kp_id) (set_title updated_at item)
        (new_media packages.json (ids 0) now item) rows)

-- One transaction: none of it is saved if a statement raises.
unfoldable pub seed : Packages → ℕ → (ℕ → ℕ) → ℕ → Database → Option Database
unfolding seed_user seed_media
seed packages user_id ids now db = do
  media ← seed_media packages ids now media_fixtures db.media_items
  some (record db { users = seed_user packages user_id now db.users; media_items = media })
