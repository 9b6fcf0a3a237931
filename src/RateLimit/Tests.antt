-- ===== src/RateLimit/Tests.antt =====
-- Runs of reconkg/ratelimit.py.
use reconkg.Base.{ℕ, ◌+◌, ◌-◌, ◌*◌, ◌≤◌, List, [], ◌∷◌, length, arith}
use reconkg.Base.Text.{codes}
use reconkg.RateLimit.{Bucket, RateLimiter, check}
use reconkg.RateLimit.Bounds.{Charge, charge_all, IsOrdered, charge_all-rate}
use reconkg.RateLimit.Buckets.{check-bound}

abbrev one_token : ℕ
one_token = 1000000000

abbrev bucket : Bucket
bucket = record {
  capacity = 2 * one_token;
  refill_per_second = 2;
  tokens = one_token;
  updated = 100;
}

abbrev charges : List Charge
charges =
    record { now = 200; cost = one_token }
    ∷ record { now = 300; cost = one_token }
    ∷ record { now = 700000000; cost = one_token }
    ∷ []

charges-IsOrdered : IsOrdered bucket.updated charges
charges-IsOrdered = (omega arith, (omega arith, (omega arith, tt)))

charge_all-rate_example :
    (charge_all charges bucket).0
    ≤ bucket.tokens
      + ((charge_all charges bucket).1.updated - bucket.updated) * bucket.refill_per_second
charge_all-rate_example = charge_all-rate charges bucket charges-IsOrdered

-- A limiter that is full.
abbrev limiter : RateLimiter
limiter = record {
  capacity = 2 * one_token;
  refill_per_second = 2;
  max_principals = 1;
  buckets = (codes "ada", bucket) ∷ [];
}

check-bound_example :
    length (check 300 301 one_token (codes "bob") limiter).0.buckets ≤ limiter.max_principals
check-bound_example =
    check-bound 300 301 one_token (codes "bob") limiter (omega arith) (omega arith)
