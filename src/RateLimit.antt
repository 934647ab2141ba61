-- ===== src/RateLimit.antt =====
-- app/services/rate_limit.py: a sliding window of requests for each client. `time.monotonic()` is a
-- number that does not fall, and `now - t < window` is read as `now < t + window`.
pub mod Window
use seans.Prelude.{
  ℕ, ◌+◌, String, Bool, Option, none, some, List, [], ◌∷◌, ◌++◌, get_or, length, ltb, leb, str_eq,
  if◌then◌else◌,
}
use seans.Prelude.Dict.{Dict, lookup, insert, string_eq}
use seans.Http.{Result, ok, raise, http}
use seans.Table.{select}

-- `_buckets`, a `defaultdict(list)`.
abbrev pub Buckets : Type 0
Buckets = Dict String (List ℕ)

-- The host of the client, unless there is a header `authorization` that is not empty.
unfoldable pub client_key : Option String → Option String → String
client_key host none = get_or host "unknown"
client_key host (some auth) = if str_eq auth "" then get_or host "unknown" else auth

-- `now - t < window_sec`
abbrev pub in_window : ℕ → ℕ → ℕ → Bool
in_window window now t = ltb now (t + window)

-- The body of `dependency` below `bucket = _buckets[key]`: the bucket that it leaves, and whether it
-- lets the request through.
unfoldable pub admit : ℕ → ℕ → ℕ → List ℕ → List ℕ × Bool
admit max_requests window now bucket =
    let kept = select (in_window window now) bucket in
    if leb max_requests (length kept) then (kept, Bool.false) else (kept ++ now ∷ [], Bool.true)

unfoldable pub rate_limit : ℕ → ℕ → String → ℕ → Buckets → Result (Unit {0}) × Buckets
unfolding admit
rate_limit max_requests window key now buckets =
    let (bucket, admitted) = admit max_requests window now (get_or (lookup key buckets) []) in
    (if admitted then ok tt else raise (http 429 "Rate limit exceeded"), insert key bucket buckets)
