-- ===== src/Service/RateLimit.antt =====
-- internal/service/ratelimit.go: the token bucket in memory and the fixed window in Redis.
-- A float64 number of tokens is modelled exactly, as a count of parts of which `unit` make a token:
-- a minute has 60 * 10^9 nanoseconds, and each adds `per_minute` parts. time.Now() is monotonic.
pub mod Bucket
pub mod FixedWindow
use axmi_pusher.Base.{
  ℕ, ◌*◌, ◌-◌, ◌+◌, Bool, true, false, Option, none, some, [], leb, ltb, ◌==◌, nat_eq,
  if◌then◌else◌,
}
use axmi_pusher.Base.Int.{ℤ, pos, positive_or}
use axmi_pusher.Base.Assoc.{Assoc, lookup, insert}
use Prim.Native.Nat.{min}

abbrev pub unit : ℕ
unit = 60000000000

pub record TokenBucket : Type 0 where
  pub tokens : ℕ
  pub last : ℕ

pub record MemoryRateLimiter : Type 0 where
  pub buckets : Assoc ℕ TokenBucket
  pub per_minute : ℕ

unfoldable pub new_memory_rate_limiter : ℤ → MemoryRateLimiter
new_memory_rate_limiter per_minute = record {
  buckets = [];
  per_minute = positive_or 600 per_minute;
}

-- The bucket after the time since its last call has filled it up, to at most a minute's tokens.
unfoldable pub refill : ℕ → ℕ → TokenBucket → TokenBucket
refill per_minute now b =
    let filled = b.tokens + (now - b.last) * per_minute in
    record {
      tokens = if ltb (per_minute * unit) filled then per_minute * unit else filled;
      last = now;
    }

-- if b.tokens >= 1 { b.tokens--; return true }
unfoldable pub take_token : TokenBucket → TokenBucket × Bool
take_token b =
    if leb unit b.tokens then (record b { tokens = b.tokens - unit }, true) else (b, false)

-- Allow on a bucket that exists.
unfoldable pub allow_bucket : ℕ → ℕ → TokenBucket → TokenBucket × Bool
unfolding refill take_token
allow_bucket per_minute now b = take_token (refill per_minute now b)

-- The bucket of a tenant's first call: full, and the call takes no token of it.
unfoldable pub first_bucket : ℕ → ℕ → TokenBucket
first_bucket per_minute now = record { tokens = per_minute * unit; last = now }

allow_found : MemoryRateLimiter → ℕ → ℕ → Option TokenBucket → MemoryRateLimiter × Bool
allow_found r tenant now none =
    (record r { buckets = insert tenant (first_bucket r.per_minute now) r.buckets }, true)
allow_found r tenant now (some b) =
    let (b', allowed) = allow_bucket r.per_minute now b in
    (record r { buckets = insert tenant b' r.buckets }, allowed)

unfoldable pub memory_allow : MemoryRateLimiter → ℕ → ℕ → MemoryRateLimiter × Bool
unfolding allow_found
memory_allow r tenant now = allow_found r tenant now (lookup tenant r.buckets)

unfoldable pub set_per_minute : ℤ → MemoryRateLimiter → MemoryRateLimiter
set_per_minute n r = record r { per_minute = positive_or r.per_minute n }

-- The counter of a tenant's key in Redis, and when the key ends; times are milliseconds.
pub record Window : Type 0 where
  pub current : ℕ
  pub expire_at : Option ℕ

abbrev pub live_window : ℕ → Option Window → Option Window
live_window clock none = none
live_window clock (some w) = elim w.expire_at [
  | none ↦ some w
  | some t ↦ if leb t clock then none else some w
]

abbrev incr : Option Window → Window
incr none = record { current = 1; expire_at = none }
incr (some w) = record w { current = w.current + 1 }

-- redisRateLimitScript, with ARGV[1] the length of the window and ARGV[2] the limit
unfoldable pub rate_limit_script : ℕ → ℕ → ℕ → Option Window → Window × ℕ
rate_limit_script length_ms limit clock key =
    let w = incr (live_window clock key) in
    let w' = if w.current == 1 then record w { expire_at = some (clock + length_ms) } else w in
    (w', if leb w.current limit then 1 else 0)

-- What the client sees of a script: its reply, or an error before or after it has run.
pub data Reply : Type 0 where
  replied lost_before lost_after : Reply

-- RedisRateLimiter.Allow on the key of one tenant: an error lets the request through.
unfoldable pub redis_allow : ℕ → Reply → ℕ → Option Window → Option Window × Bool
redis_allow per_minute lost_before clock key = (key, true)
redis_allow per_minute lost_after clock key =
    (some (rate_limit_script 60000 per_minute clock key).0, true)
redis_allow per_minute replied clock key =
    let (w, answer) = rate_limit_script 60000 per_minute clock key in (some w, answer == 1)

unfoldable pub new_redis_rate_limiter : ℤ → ℕ
new_redis_rate_limiter = positive_or 600

-- SetPerMinute of RedisRateLimiter, on its number.
unfoldable pub redis_set_per_minute : ℤ → ℕ → ℕ
redis_set_per_minute n per_minute = positive_or per_minute n
