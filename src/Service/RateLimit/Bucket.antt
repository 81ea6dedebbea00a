-- ===== src/Service/RateLimit/Bucket.antt =====
-- How many calls a token bucket lets through.
use Prim.Native.Nat.{min}
use axmi_pusher.Base.{
  Option, nat_eq, ◌==◌, ◌≢◌, false, true, none, some, zero, suc, ap, ◌∙◌, Bool, arith, ◌-◌, ◌+◌, [],
  if◌then◌else◌, ◌≡◌, ◌∷◌, ◌*◌, List, ◌≤◌, ℕ,
}
use axmi_pusher.Base.Assoc.{lookup-insert_self, insert, lookup, lookup-insert_ne}
use axmi_pusher.Service.RateLimit.{
  TokenBucket, MemoryRateLimiter, unit, allow_bucket, first_bucket, memory_allow, allow_found,
}

-- Allow at one time after another: the bucket that it leaves, and how many calls it let through.
unfoldable pub allow_each : ℕ → TokenBucket → List ℕ → TokenBucket × ℕ
allow_each per_minute b [] = (b, 0)
allow_each per_minute b (now ∷ times) =
    let (b', allowed) = allow_bucket per_minute now b in
    let (last, n) = allow_each per_minute b' times in (last, if allowed then suc n else n)

-- Times that do not go back, from a first one.
abbrev pub Onwards : ℕ → List ℕ → Type 0
Onwards from [] = Unit
Onwards from (now ∷ times) = (from ≤ now) × Onwards now times

-- The parts that pass between two times.
span : (a b p : ℕ) → a ≤ b → (b - a) * p + a * p ≡ b * p
span a b p h = grind arith

one_call :
    (per_minute now : ℕ) (b : TokenBucket)
    → b.last ≤ now
    → let (b', allowed) = allow_bucket per_minute now b in
      (b'.last ≡ now)
      × (b'.tokens ≤ per_minute * unit)
      × ((if allowed then unit else 0) + b'.tokens + b.last * per_minute
          ≤ b.tokens + now * per_minute)
unfolding allow_bucket
one_call per_minute now b h = ground (arith, span b.last now per_minute h)

-- One call before others, with the spans as unknowns.
one_more :
    (allowed : Bool) (n left_in rest passed now later before ended : ℕ)
    → (if allowed then unit else 0) + left_in + passed ≤ before + now
    → n * unit + rest + now ≤ left_in + ended
    → later ≡ now
    → (if allowed then suc n else n) * unit + rest + passed ≤ before + ended
one_more true n left_in rest passed now later before ended p q e = omega arith
one_more false n left_in rest passed now later before ended p q e = omega arith

-- Of the calls at times that do not go back, a bucket lets through no more than its tokens and those
-- that the time from its last call to the end of the calls adds.
pub allowed_bounded :
    (per_minute : ℕ) (b : TokenBucket) (times : List ℕ)
    → Onwards b.last times
    → let (b', n) = allow_each per_minute b times in
      n * unit + b'.tokens + b.last * per_minute ≤ b.tokens + b'.last * per_minute
unfolding allow_each
allowed_bounded per_minute b [] h = omega arith
allowed_bounded per_minute b (now ∷ times) h =
    let (b', allowed) = allow_bucket per_minute now b in
    let (last, n) = allow_each per_minute b' times in
    let (at, full, paid) = one_call per_minute now b h.0 in
    let span_of : b'.last * per_minute ≡ now * per_minute = ap (λ t. t * per_minute) at in
    let rest = allowed_bounded per_minute b' times (rw at h.1) in
    one_more allowed n b'.tokens last.tokens (b.last * per_minute) (now * per_minute)
      (b'.last * per_minute) b.tokens (last.last * per_minute) paid (omega (arith, rest, span_of))
      span_of

-- A bucket with `k` tokens at the time of its last call.
abbrev whole : ℕ → ℕ → TokenBucket
whole k now = record { tokens = k * unit; last = now }

at_once :
    (per_minute now k : ℕ)
    → suc k ≤ per_minute
    → allow_bucket per_minute now (whole (suc k) now) ≡ (whole k now, true)
unfolding allow_bucket
at_once per_minute now k h = ground arith

none_left : (per_minute now : ℕ) → allow_bucket per_minute now (whole 0 now) ≡ (whole 0 now, false)
unfolding allow_bucket
none_left per_minute now = ground arith

-- A number of calls of Allow for a tenant within one instant, and how many are let through.
unfoldable pub calls_at : ℕ → MemoryRateLimiter → ℕ → ℕ → MemoryRateLimiter × ℕ
calls_at zero r tenant now = (r, 0)
calls_at (suc n) r tenant now =
    let (r', allowed) = memory_allow r tenant now in
    let (last, m) = calls_at n r' tenant now in (last, if allowed then suc m else m)

memory_allow-found :
    (r : MemoryRateLimiter) (tenant now : ℕ) (b b' : TokenBucket) (allowed : Bool)
    → lookup tenant r.buckets ≡ some b
    → allow_bucket r.per_minute now b ≡ (b', allowed)
    → memory_allow r tenant now ≡ (record r { buckets = insert tenant b' r.buckets }, allowed)
unfolding memory_allow
memory_allow-found r tenant now b b' allowed e a = rw (e, allow_found) (rw a)

calls_whole :
    (n k : ℕ) (r : MemoryRateLimiter) (tenant now : ℕ)
    → k ≤ r.per_minute
    → lookup tenant r.buckets ≡ some (whole k now)
    → (calls_at n r tenant now).1 ≡ min n k
unfolding calls_at
calls_whole zero k r tenant now h e = omega arith
calls_whole (suc n) zero r tenant now h e =
    rw
      (memory_allow-found r tenant now (whole 0 now) (whole 0 now) false e
        (none_left r.per_minute now))
      (calls_whole n 0 (record r { buckets = insert tenant (whole 0 now) r.buckets }) tenant now h
          (lookup-insert_self tenant (whole 0 now) r.buckets)
        ∙ omega arith)
calls_whole (suc n) (suc k) r tenant now h e =
    rw
      (memory_allow-found r tenant now (whole (suc k) now) (whole k now) true e
        (at_once r.per_minute now k h))
      (ap suc (
          calls_whole n k (record r { buckets = insert tenant (whole k now) r.buckets }) tenant now
            (omega arith) (lookup-insert_self tenant (whole k now) r.buckets))
        ∙ omega arith)

-- Of the calls of a new tenant within one instant the limiter lets through one more than its limit
-- for a minute: no token is taken for the first.
pub burst :
    (n : ℕ) (r : MemoryRateLimiter) (tenant now : ℕ)
    → lookup tenant r.buckets ≡ none
    → (calls_at (suc n) r tenant now).1 ≡ min (suc n) (r.per_minute + 1)
unfolding calls_at memory_allow first_bucket
burst n r tenant now e =
    rw (e, allow_found)
      (ap suc (
          calls_whole n r.per_minute
            (record r { buckets = insert tenant (whole r.per_minute now) r.buckets }) tenant now
            (omega arith) (lookup-insert_self tenant (whole r.per_minute now) r.buckets))
        ∙ omega arith)

-- A call for one tenant leaves the buckets of the others as they are.
memory_allow_elsewhere :
    (r : MemoryRateLimiter) (t u now : ℕ)
    → t ≢ u
    → lookup u (memory_allow r t now).0.buckets ≡ lookup u r.buckets
unfolding memory_allow
memory_allow_elsewhere r t u now n = by_found (lookup t r.buckets)
  where
    apart : (t == u) ≡ false
    apart = ground arith

    by_found :
        (o : Option TokenBucket) → lookup u (allow_found r t now o).0.buckets ≡ lookup u r.buckets
    by_found none = lookup-insert_ne t u _ r.buckets apart
    by_found (some b) = lookup-insert_ne t u _ r.buckets apart
