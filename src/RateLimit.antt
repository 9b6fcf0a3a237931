-- ===== src/RateLimit.antt =====
-- reconkg/ratelimit.py: token buckets keyed by principal. Time is a number of nanoseconds and a token is
-- 1,000,000,000 units, so a rate of whole tokens for each second adds exact units; the clock does not go
-- back. Each reading of the clock is an argument. `retry_after` is kept as the fraction that it rounds.
pub mod Bounds
pub mod Buckets
mod Tests
use reconkg.Base.{
  ℕ, zero, suc, ◌+◌, ◌-◌, ◌*◌, ◌/◌, Bool, true, false, Option, none, some, List, [], ◌∷◌,
  if◌then◌else◌, leb, ltb, length, take,
}
use reconkg.Base.Text.{Text}
use reconkg.Base.Dict
use reconkg.Base.Dict.{Dict}

pub record Bucket : Type 0 where
  pub capacity : ℕ
  pub refill_per_second : ℕ
  pub tokens : ℕ
  pub updated : ℕ

-- `Bucket(...)` with its `__post_init__`.
unfoldable pub new_bucket : (now capacity refill_per_second : ℕ) → Bucket
new_bucket now capacity refill_per_second = record {
  capacity = capacity;
  refill_per_second = refill_per_second;
  tokens = capacity;
  updated = now;
}

unfoldable pub capped : ℕ → ℕ → ℕ
capped bound n = if leb n bound then n else bound

unfoldable pub refilled : (now : ℕ) → Bucket → Bucket
refilled now b = record b {
  updated = now;
  tokens = capped b.capacity (b.tokens + (now - b.updated) * b.refill_per_second);
}

unfoldable pub spend : (cost : ℕ) → Bucket → Bucket × Bool
spend cost b =
    if ltb b.tokens cost then (b, false) else (record b { tokens = b.tokens - cost }, true)

unfoldable pub take_tokens : (now cost : ℕ) → Bucket → Bucket × Bool
take_tokens now cost b = spend cost (refilled now b)

-- Forever, or the units that are missing over the units of a second.
pub data Wait : Type 0 where
  no_wait forever : Wait
  units : (deficit refill_per_second : ℕ) → Wait

unfoldable pub retry_after : (cost : ℕ) → Bucket → Wait
retry_after cost b =
    if leb b.refill_per_second 0 then forever else units (cost - b.tokens) b.refill_per_second

pub record RateLimiter : Type 0 where
  pub capacity : ℕ
  pub refill_per_second : ℕ
  pub max_principals : ℕ
  pub buckets : Dict Bucket

-- `sorted(..., key=updated)`, which keeps the order of equal keys.
unfoldable pub insert_by_updated : Text × Bucket → Dict Bucket → Dict Bucket
insert_by_updated entry [] = entry ∷ []
insert_by_updated entry (other ∷ rest) =
    let behind = insert_by_updated entry rest in
    if leb entry.1.updated other.1.updated then entry ∷ other ∷ rest else other ∷ behind

unfoldable pub sort_by_updated : Dict Bucket → Dict Bucket
sort_by_updated [] = []
sort_by_updated (entry ∷ rest) = insert_by_updated entry (sort_by_updated rest)

-- `n // 2 or 1`.
unfoldable pub half_or_one : ℕ → ℕ
half_or_one n = elim (n / 2) [ zero ↦ 1 | suc m ↦ suc m ]

unfoldable pub pop_names : Dict Bucket → Dict Bucket → Dict Bucket
pop_names buckets [] = buckets
pop_names buckets ((name, b) ∷ rest) = pop_names (Dict.pop buckets name) rest

unfoldable pub evict_half : Dict Bucket → Dict Bucket
evict_half buckets =
    pop_names buckets (take (half_or_one (length buckets)) (sort_by_updated buckets))

unfoldable pub reply : (cost : ℕ) → Bucket × Bool → Bool × Wait
reply cost (b, true) = (true, no_wait)
reply cost (b, false) = (false, retry_after cost b)

-- The buckets with one for the principal, given what `get` found; `now` is read when a bucket is made.
unfoldable pub bucket_for : (now : ℕ) → Text → RateLimiter → Option Bucket → Dict Bucket × Bucket
bucket_for now principal r (some b) = (r.buckets, b)
bucket_for now principal r none =
    let room =
      if leb r.max_principals (length r.buckets) then evict_half r.buckets else r.buckets in
    let b = new_bucket now r.capacity r.refill_per_second in (Dict.put room principal b, b)

unfoldable pub with_bucket : (now : ℕ) → Text → RateLimiter → Dict Bucket × Bucket
with_bucket now principal r = bucket_for now principal r (Dict.get r.buckets principal)

-- `now` and `later` are the readings of the clock when a bucket is made and when it is charged.
unfoldable pub check : (now later cost : ℕ) → Text → RateLimiter → RateLimiter × (Bool × Wait)
check now later cost principal r =
    let (buckets, b) = with_bucket now principal r in
    let taken = take_tokens later cost b in
    (record r { buckets = Dict.put buckets principal taken.0 }, reply cost taken)

unfoldable pub reset : Option Text → RateLimiter → RateLimiter
reset none r = record r { buckets = [] }
reset (some principal) r = record r { buckets = Dict.pop r.buckets principal }
