-- ===== src/Scripts/Seed/Refused.antt =====
-- The seed with a driver that takes no text for a timestamp, as asyncpg.
use seans.Prelude.{ℕ, none, ◌≡◌, refl}
use seans.Models.{Database}
use seans.Scripts.Seed.{Packages, seed}

-- If the driver refuses the text "now()" for a timestamp, the seed raises, and saves nothing: not
-- even the demo user.
pub seed_refused :
    (packages : Packages) (user_id : ℕ) (ids : ℕ → ℕ) (now : ℕ) (db : Database)
    → packages.bind_timestamp "now()" ≡ none
    → seed packages user_id ids now db ≡ none
unfolding seed
seed_refused packages user_id ids now db refused = rw refused refl
