-- ===== src/App.antt =====
-- app/main.py: the routers of the application; and alembic/env.py: the database that the migrations
-- go to. `getenv` is `os.environ.get`.
use seans.Prelude.{
  String, Option, some, List, [], ◌∷◌, ◌++◌, or_option, get_or, is_truthy, str_eq, if◌then◌else◌,
}
use seans.Migrations.V006.{replace_all}

pub data Router : Type 0 where
  auth admin arr media tasks library worker rooms history reviews ws dev : Router

abbrev pub base_routers : List Router
base_routers =
    Router.auth ∷ Router.admin ∷ Router.arr ∷ Router.media ∷ Router.tasks ∷ Router.library
    ∷ Router.worker ∷ Router.rooms ∷ Router.history ∷ Router.reviews ∷ Router.ws ∷ []

-- `os.getenv("ENV", "dev") == "dev"`
unfoldable pub routers : (String → Option String) → List Router
routers getenv =
    if str_eq (get_or (getenv "ENV") "dev") "dev"
    then base_routers ++ Router.dev ∷ []
    else base_routers

-- `os.environ.get("DATABASE_URL_SYNC") or os.environ.get("DATABASE_URL", "")`
unfoldable pub db_url : (String → Option String) → String
db_url getenv =
    get_or (or_option (getenv "DATABASE_URL_SYNC") (some (get_or (getenv "DATABASE_URL") ""))) ""

-- What `sqlalchemy.url` becomes; `configured` is that of alembic.ini, which stays for no address.
unfoldable pub main_url : (String → Option String) → Option String → Option String
unfolding db_url replace_all
main_url getenv configured =
    if is_truthy (db_url getenv)
    then some (replace_all "+asyncpg" "+psycopg2" (db_url getenv))
    else configured
