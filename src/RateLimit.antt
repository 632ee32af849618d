-- ===== src/RateLimit.antt =====
-- The rate limiter in the memory of a process, and the choice between it and the one in Redis:
-- internal/middleware/ratelimit.go, internal/middleware/redis_ratelimit.go. A token is `second` units,
-- so that the tokens that Go keeps in a `float64` are exact: time × rate, in nanoseconds × 1/s.
pub mod Admitted
pub mod Redis
pub mod Tokens
pub mod Seconds
use high_concurrency_ticketi.Prelude.{
  ℕ, ◌*◌, ℤ, pos, ◌+ℤ◌, ◌-ℤ◌, ltb_ℤ, Bool, true, false, Option, none, some, ◌==◌, if◌then◌else◌,
}
use high_concurrency_ticketi.Schema.{Text, Time, second}

pub record Bucket : Type 0 where
  pub tokens : ℤ
  pub last : Time

-- The map from a host to its bucket.
abbrev pub Buckets : Type 0
Buckets = Text → Option Bucket

abbrev pub min : ℤ → ℤ → ℤ
min a b = if ltb_ℤ a b then a else b

-- `min(burst, b.tokens + elapsed*refill)`; the clock may stand before `last`.
unfoldable pub refilled : ℕ → ℕ → Time → Bucket → ℤ
refilled rps burst now b =
    min (pos (burst * second)) ((b.tokens +ℤ pos (now * rps)) -ℤ pos (b.last * rps))

-- The part under the lock once the bucket is there: whether the request goes on, and the bucket.
unfoldable pub take_token : ℕ → ℕ → Time → Bucket → Bool × Bucket
unfolding refilled
take_token rps burst now b =
    if ltb_ℤ (refilled rps burst now b) (pos second)
    then (false, record b { tokens = refilled rps burst now b })
    else (true, record { tokens = refilled rps burst now b -ℤ pos second; last = now })

-- `b := buckets[host]`, made full where it is missing.
abbrev pub bucket_of : ℕ → Time → Option Bucket → Bucket
bucket_of burst now none = record { tokens = pos (burst * second); last = now }
bucket_of burst now (some b) = b

abbrev pub put_bucket : Buckets → Text → Bucket → Buckets
put_bucket bs host b host' = if host == host' then some b else bs host'

-- The handler that `RateLimit(rps, burst)` returns: true for `c.Next()`, false for 429.
unfoldable pub rate_limit : ℕ → ℕ → Text → Time → Buckets → Bool × Buckets
unfolding take_token
rate_limit rps burst host now bs =
    let (go_on, b) = take_token rps burst now (bucket_of burst now (bs host)) in
    (go_on, put_bucket bs host b)
