-- ===== src/RateLimit.antt =====
-- The in-process rate limiter (app/security/rate_limit.py). Times are in milliseconds, and tokens in
-- units of which 60000 are one token: a millisecond then refills `requests_per_minute` units.
-- The settings are the dependency's arguments; a lock makes each call one step.
pub mod Admission
mod Tests
use smart_sre_copilot.Prelude.{
  ℕ, ◌+◌, ◌-◌, ◌*◌, min, max, String, Bool, true, false, ◌||◌, not, Option, none, some, List, [],
  ltb, str_eq, if◌then◌else◌, lookup, insert,
}
use smart_sre_copilot.Auth.{Principal, HttpError, Outcome, principal, refused}

pub record RateLimitPolicy : Type 0 where
  pub requests_per_minute : ℕ
  pub burst : ℕ

pub record Bucket : Type 0 where
  pub tokens : ℕ
  pub updated_at : ℕ

abbrev pub token : ℕ
token = 60000

-- `refill_per_second`, per millisecond and in units
abbrev pub refill : RateLimitPolicy → ℕ
refill p = max p.requests_per_minute 1

-- `capacity`, in units
abbrev pub capacity : RateLimitPolicy → ℕ
capacity p = max p.burst 1 * token

-- The bucket at `now`, filled up for the time that has passed.
abbrev pub refilled : RateLimitPolicy → ℕ → Bucket → Bucket
refilled p now b = record {
  tokens = min (capacity p) (b.tokens + (now - b.updated_at) * refill p);
  updated_at = now;
}

-- A token is taken where there is one.
unfoldable pub take_token : Bucket → Bool × Bucket
take_token b =
    if ltb b.tokens token then (false, b) else (true, record b { tokens = b.tokens - token })

abbrev pub new_bucket : RateLimitPolicy → ℕ → Bucket
new_bucket p now = record { tokens = capacity p - token; updated_at = now }

unfoldable pub admit : RateLimitPolicy → ℕ → Option Bucket → Bool × Bucket
unfolding take_token
admit p now none = (true, new_bucket p now)
admit p now (some b) = take_token (refilled p now b)

-- `allow`: the answer and the buckets it leaves.
unfoldable pub allow :
    String → RateLimitPolicy → ℕ → List (String × Bucket) → Bool × List (String × Bucket)
unfolding admit
allow key p now buckets =
    let answer = admit p now (lookup key buckets) in (answer.0, insert key answer.1 buckets)

unfoldable pub reset_for_testing : List (String × Bucket) → List (String × Bucket)
reset_for_testing buckets = []

-- `_rate_limit_key`: `by_principal` and `by_ip` put the scope and the kind in front.
unfoldable pub rate_limit_key :
    (String → String) → (String → String) → Principal → Option String → String
rate_limit_key by_principal by_ip p host =
    if not (str_eq p.subject "" || str_eq p.subject "local-dev")
    then by_principal p.subject
    else elim host [ none ↦ by_ip "unknown" | some h ↦ by_ip h ]

pub data Verdict : Type 0 where
  admitted : Principal → Verdict
  denied : HttpError → Verdict
  rate_limit_exceeded : Verdict  -- 429

verdict : Principal → Bool → Verdict
verdict p true = admitted p
verdict p false = rate_limit_exceeded

-- The dependency of `require_stream_rate_limit` behind the one of `require_capability`, whose
-- outcome it takes; `key_of` is `rate_limit_key` of the request.
unfoldable pub stream_dependency :
    Outcome
    → Bool
    → RateLimitPolicy
    → (Principal → String)
    → ℕ
    → List (String × Bucket)
    → Verdict × List (String × Bucket)
unfolding verdict allow
stream_dependency (refused e) enabled policy key_of now buckets = (denied e, buckets)
stream_dependency (principal p) false policy key_of now buckets = (admitted p, buckets)
stream_dependency (principal p) true policy key_of now buckets =
    let answer = allow (key_of p) policy now buckets in (verdict p answer.0, answer.1)
