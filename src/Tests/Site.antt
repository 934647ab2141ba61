-- ===== src/Tests/Site.antt =====
-- Accounts, administration, library, reviews, the limiter and the cache.
use seans.Prelude.{
  ℕ, ◌≡◌, refl, ap, zero, suc, ltb, String, true, false, ◌+◌, ◌*◌, ◌<◌, ◌≤◌, not, none, some, List,
  [], ◌∷◌, arith, length, str_eq, if◌then◌else◌, ◌==◌,
}
use seans.Prelude.Dict.{string_eq}
use seans.Prelude.Int.{pos, ◌≤ℤ◌}
use seans.Http.{ok, raise, http}
use seans.Table.{select, find, exists, update_where, upsert}
use seans.Models.{Database, User}
use seans.Plans.{get_plan, get_effective_plan, is_plan_expired}
use seans.Quota.{get_effective_quota_bytes}
use seans.Auth.{Crypto, RegisterRequest, register, create_access_token, get_current_user}
use mathlib.Core.List.{Mem}
use seans.Config.{hours}
use seans.Auth.{LoginRequest, login, user_to_response}
use seans.Auth.Tokens.{IsSound, whole_seconds, login_authenticates}
use seans.Auth.Invites.{IsOk, invite_serves_once}
use seans.Admin.{AdminUserPatch, patch_plan, patch_fields, patch_user}
use seans.Admin.Patch.{StaysAdmin, patch_user-StaysAdmin}
use seans.Admin.Quotas.{patched_quota_effective}
use seans.Library.{get_file_url}
use seans.Library.Files.{get_file_url_private}
use seans.Reviews.{ReviewUpsertRequest, is_review, new_review, upsert_review}
use seans.Reviews.Upsert.{upsert_review_saved}
use seans.RateLimit.Window.{Hit, run_limiter, run_ideal, run_limiter-eq-run_ideal}
use seans.ArrCache.{TtlCache}
use seans.Tests.Sample.{settings, alice, bob, with_tasks, held_task, pending_file}

-- Ids as texts, one letter for each unit.
unary : ℕ → String
unary zero = ""
unary (suc n) = String.◌∷◌ "a" (unary n)

count : String → ℕ
count String.[] = 0
count (String.◌∷◌ c s) = suc (count s)

count-unary : (n : ℕ) → count (unary n) ≡ n
unfolding count unary
count-unary zero = refl
count-unary (suc n) = ap suc (count-unary n)

-- Tokens that are their claims.
abbrev plain : Crypto (String × ℕ)
plain = record {
  encode = λ sub exp. (sub, exp);
  decode = λ now token. if ltb now (whole_seconds token.1) then some (some token.0) else none;
  parse_uuid = λ s. some (count s);
  str_uuid = unary;
  hash_password = λ s. s;
  check_password = str_eq;
  same_email = str_eq;
}

plain-IsSound : IsSound plain
plain-IsSound = record {
  decode-encode = λ sub exp now h. ground arith;
  decode-encode_expired = λ sub exp now h. ground arith;
  parse_uuid-str_uuid = λ id. ap some (count-unary id);
}

abbrev db : Database
db = record (with_tasks (held_task 11 1 ∷ [])) { task_files = pending_file 20 11 ∷ [] }

-- The user of the database, whose password is their hash.
abbrev alices : LoginRequest
alices = record { email = alice.email; password = alice.password_hash }

login_authenticates_example :
    let token = create_access_token plain settings 10 1 in
    (user : User) × Mem user db.users
    × (str_eq user.email alice.email ≡ true)
    × (str_eq alice.password_hash user.password_hash ≡ true)
    × ((row : User)
        → 20 < whole_seconds (10 + hours (settings.jwt_ttl_days * 24))
        → find (λ u. u.id == user.id) db.users ≡ some row
        → get_current_user plain 20 token db ≡ (ok row, db))
    × (20 < whole_seconds (10 + hours (settings.jwt_ttl_days * 24))
        → find (λ u. u.id == user.id) db.users ≡ none
        → get_current_user plain 20 token db ≡ (raise (http 401 "User not found"), db))
    × (whole_seconds (10 + hours (settings.jwt_ttl_days * 24)) ≤ 20
        → get_current_user plain 20 token db ≡ (raise (http 401 "Invalid token"), db))
unfolding login user_to_response get_effective_quota_bytes is_plan_expired find
login_authenticates_example =
    login_authenticates plain plain-IsSound settings 10 20 alices db db
      (create_access_token plain settings 10 1) (user_to_response alice 10) refl

abbrev carol : RegisterRequest
carol = record { email = "carol"; password = "x"; display_name = "Carol"; invite_key = "welcome" }

abbrev dave : RegisterRequest
dave = record { email = "dave"; password = "x"; display_name = "Dave"; invite_key = "welcome" }

abbrev registered : Database
registered = (register plain settings 30 100 carol db).1

invite_serves_once_example :
    (¬ IsOk (register plain settings 31 101 dave registered).0)
    × ((register plain settings 31 101 dave registered).1 ≡ registered)
unfolding register find update_where
invite_serves_once_example =
    invite_serves_once plain settings 30 31 100 101 carol dave db 3 ((λ _. refl), tt) tt refl

abbrev to_plus : AdminUserPatch
to_plus = record {
  is_admin = some false;
  can_invite = none;
  plan = some "plus";
  plan_expires_at = some 500;
  quota_bytes = none;
}

patch_user-StaysAdmin_example : StaysAdmin 1 (patch_user 100 alice 2 to_plus db).1.users
patch_user-StaysAdmin_example =
    patch_user-StaysAdmin 100 alice 2 to_plus db ((λ _. refl), ((λ e. absurd (ground arith)), tt))

abbrev planned : User
planned = record bob { plan = "plus"; plan_expires_at = some 500; quota_bytes = pos 53687091200 }

patched_quota_effective_example :
    let patched = patch_fields to_plus planned in
    (patched.plan_expires_at ≡ some 500)
    × (get_effective_quota_bytes patched 100 ≡ (get_effective_plan patched none 100).quota_bytes)
unfolding patch_plan get_plan
patched_quota_effective_example = patched_quota_effective to_plus "plus" bob planned 100 refl refl

get_file_url_private_example :
    (detail : String) × (get_file_url (λ s. s) 20 bob db ≡ (raise (http 404 detail), db))
unfolding exists
get_file_url_private_example =
    get_file_url_private (λ s. s) 20 bob db ((λ e own. absurd (ground arith)), tt)

abbrev praise : ReviewUpsertRequest
praise = record { score = pos 9; review = some "good" }

abbrev saved : Database
saved = (upsert_review 40 100 5 praise bob db).1

upsert_review_saved_example :
    let row = new_review 40 100 bob 5 praise in
    (find (is_review 2 5) saved.reviews ≡ some row)
    × (length (select (is_review 2 5) saved.reviews) ≡ 1)
    × (row.score ≡ pos 9)
    × (row.review ≡ some "good")
    × (pos 1 ≤ℤ row.score)
    × (row.score ≤ℤ pos 10)
    × (select (λ s. not (is_review 2 5 s)) saved.reviews
        ≡ select (λ s. not (is_review 2 5 s)) db.reviews)
unfolding upsert_review find upsert exists select
upsert_review_saved_example =
    upsert_review_saved 40 100 5 praise bob db (new_review 40 100 bob 5 praise) (ground arith) refl

abbrev hits : List Hit
hits = ("a", 1) ∷ ("a", 2) ∷ ("b", 2) ∷ ("a", 3) ∷ ("a", 11) ∷ []

run_limiter-eq-run_ideal_example : run_limiter 2 10 hits [] ≡ run_ideal 2 10 hits []
run_limiter-eq-run_ideal_example = run_limiter-eq-run_ideal 2 10 hits (ground arith)

abbrev cache : TtlCache ℕ
cache = ("arr:series:1", (50, 7)) ∷ []

abbrev key : String
key = "arr:series:1"

abbrev other : String
other = "arr:movies:1"
