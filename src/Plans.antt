-- ===== src/Plans.antt =====
-- app/services/plans.py: the subscription plans. A stored time has a zone (`DateTime(timezone=True)`),
-- so the branch that adds a missing `tzinfo` leaves the instant as it is.
use seans.Prelude.{
  ℕ, String, Bool, false, Option, none, some, List, [], ◌∷◌, get_or, str_eq, ltb, if◌then◌else◌,
}
use seans.Prelude.Int.{ℤ, pos}
use seans.Models.{User}

pub record Plan : Type 0 where
  pub code : String
  pub title : String
  pub quota_bytes : ℤ

abbrev pub free_plan : Plan
free_plan = record { code = "free"; title = "Free"; quota_bytes = pos 10737418240 }

abbrev pub plus_plan : Plan
plus_plan = record { code = "plus"; title = "Plus"; quota_bytes = pos 53687091200 }

abbrev pub pro_plan : Plan
pro_plan = record { code = "pro"; title = "Pro"; quota_bytes = pos 214748364800 }

-- `PLANS`, in the order of its entries.
abbrev pub plans : List (String × Plan)
plans = ("free", free_plan) ∷ ("plus", plus_plan) ∷ ("pro", pro_plan) ∷ []

lookup_plan : String → List (String × Plan) → Option Plan
lookup_plan code [] = none
lookup_plan code ((c, plan) ∷ rest) = if str_eq c code then some plan else lookup_plan code rest

-- `PLANS.get(code)`
unfoldable pub get_plan : String → Option Plan
unfolding lookup_plan
get_plan code = lookup_plan code plans

-- `now or datetime.now(UTC)` is `get_or now clock`.
unfoldable pub is_plan_expired : User → Option ℕ → ℕ → Bool
is_plan_expired user now clock = elim user.plan_expires_at [
  | none ↦ false
  | some expires ↦ ltb expires (get_or now clock)
]

unfoldable pub get_effective_plan : User → Option ℕ → ℕ → Plan
unfolding is_plan_expired get_plan
get_effective_plan user now clock =
    if is_plan_expired user now clock then free_plan else get_or (get_plan user.plan) free_plan
