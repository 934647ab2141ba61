-- ===== src/Admin/Quotas.antt =====
-- The plan that a patch gives, and the quota that follows from it.
use seans.Prelude.{ℕ, String, ◌≡◌, none, some, arith, inl, inr, Option-cases}
use seans.Models.{User}
use seans.Plans.{get_plan, get_effective_plan}
use seans.Quota.{get_effective_quota_bytes}
use seans.Admin.{AdminUserPatch, patch_plan, patch_fields}

-- What `patch_user` writes when the body names a plan and no quota is that of the plan: at any time,
-- the limit that `check_quota` applies is the quota of the plan that is then in effect, also after
-- the plan has expired.
pub patched_quota_effective :
    (body : AdminUserPatch) (code : String) (user planned : User) (clock : ℕ)
    → body.quota_bytes ≡ none
    → patch_plan body (some code) user ≡ some planned
    → let patched = patch_fields body planned in
      (patched.plan_expires_at ≡ body.plan_expires_at)
      × (get_effective_quota_bytes patched clock
          ≡ (get_effective_plan patched none clock).quota_bytes)
unfolding patch_plan patch_fields get_effective_quota_bytes get_effective_plan
patched_quota_effective body code user planned clock no_quota h =
    elim (Option-cases (get_plan code)) [
      | inl e ↦ absurd (ground arith)
      | inr (plan, e) ↦ ground arith
    ]
