-- ===== src/RateLimit/Tests.antt =====
-- Runs and witnesses of the rate limiter (app/security/rate_limit.py).
use smart_sre_copilot.Prelude.{
  ℕ, ◌+◌, ◌*◌, ◌-◌, ◌≤◌, String, ◌≡◌, refl, true, List, [], ◌∷◌, some, lookup, insert, arith,
}
use smart_sre_copilot.RateLimit.{
  RateLimitPolicy, Bucket, token, refill, capacity, admit, allow, take_token,
}
use smart_sre_copilot.RateLimit.Admission.{served, served_bounded, rested_is_admitted}

abbrev policy : RateLimitPolicy
policy = record { requests_per_minute = 6; burst = 2 }

abbrev full : Bucket
full = record { tokens = 120000; updated_at = 1000 }

abbrev buckets : List (String × Bucket)
buckets = ("stream:principal:alice", full) ∷ []

abbrev requests : List (String × ℕ)
requests =
    ("stream:principal:alice", 1000)
    ∷ ("stream:principal:bob", 1500)
    ∷ ("stream:principal:alice", 1600)
    ∷ ("stream:principal:alice", 2000)
    ∷ []

-- The third request of alice comes too early.
two_of_three : served "stream:principal:alice" policy requests buckets ≡ 2
unfolding served allow admit take_token lookup insert
two_of_three = refl

found : lookup "stream:principal:alice" buckets ≡ some full
unfolding lookup
found = refl

served_bounded_example :
    served "stream:principal:alice" policy requests buckets * token
    ≤ capacity policy + (2000 - 1000) * refill policy
served_bounded_example =
    served_bounded "stream:principal:alice" policy 2000 requests buckets full found (omega arith)
      (omega arith, (omega arith, (omega arith, (omega arith, omega arith))))

rested_is_admitted_example : (allow "stream:principal:alice" policy 61000 buckets).0 ≡ true
rested_is_admitted_example =
    rested_is_admitted "stream:principal:alice" policy 61000 buckets full found (omega arith)
