-- ===== src/Kinopoisk/Fixtures.antt =====
-- The dictionary that kinopoisk.py makes of a medium, and the ones that it answers with when it has no
-- token. A rating is counted in tenths, as its column does.
use seans.Prelude.{String, Option, some, List, [], ◌∷◌}
use seans.Prelude.Int.{ℤ, pos}
use seans.Models.{KpType}

pub record MediaFields : Type 0 where
  pub kp_id : Option ℤ
  pub kp_type : KpType
  pub title : String
  pub original_title : Option String
  pub year : Option ℤ
  pub poster_url : Option String
  pub overview : Option String
  pub rating_kp : Option ℤ
  pub genres : List String
  pub tmdb_id : Option ℤ

-- `MOCK_FIXTURES`
abbrev pub mock_fixtures : List MediaFields
mock_fixtures =
    record {
      kp_id = some (pos 11154872);
      kp_type = KpType.movie;
      title = "Токийский гуль";
      original_title = some "Tokyo Ghoul";
      year = some (pos 2017);
      poster_url = some "https://st.kp.yandex.net/images/film_iphone/iphone360_11154872.jpg";
      overview = some "Студент Канеки попадает в мир гулей.";
      rating_kp = some (pos 64);
      genres = "ужасы" ∷ "боевик" ∷ [];
      tmdb_id = some (pos 378527);
    }
    ∷ record {
      kp_id = some (pos 258687);
      kp_type = KpType.movie;
      title = "Интерстеллар";
      original_title = some "Interstellar";
      year = some (pos 2014);
      poster_url = some "https://st.kp.yandex.net/images/film_iphone/iphone360_258687.jpg";
      overview = some "Космическая экспедиция через червоточину.";
      rating_kp = some (pos 86);
      genres = "фантастика" ∷ "драма" ∷ [];
      tmdb_id = some (pos 157336);
    }
    ∷ record {
      kp_id = some (pos 464963);
      kp_type = KpType.tv;
      title = "Игра престолов";
      original_title = some "Game of Thrones";
      year = some (pos 2011);
      poster_url = some "https://st.kp.yandex.net/images/film_iphone/iphone360_464963.jpg";
      overview = some "Благородные дома Вестероса борются за трон.";
      rating_kp = some (pos 87);
      genres = "фэнтези" ∷ "драма" ∷ [];
      tmdb_id = some (pos 1399);
    }
    ∷ []
