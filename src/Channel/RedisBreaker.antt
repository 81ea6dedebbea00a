-- ===== src/Channel/RedisBreaker.antt =====
-- internal/channel/breaker_redis.go: the circuit breaker in Redis. A script runs as one step on the
-- hash of one tenant and channel. Times are milliseconds; a hash with no field is a missing key.
pub mod Circuits
pub mod Refinement
pub mod Expiry
use axmi_pusher.Base.{
  ℕ, zero, suc, ◌+◌, ◌*◌, ◌/◌, ◌++◌, String, Bool, true, false, ◌||◌, Option, none, some, List, [],
  ◌∷◌, leb, ltb, ◌==◌, nat_eq, string_eq, Text, if◌then◌else◌,
}
use axmi_pusher.Base.Int.{ℤ, positive_or}
use axmi_pusher.Base.Keys.{tenant_key, codes}
use axmi_pusher.Base.Assoc.{Assoc, lookup, insert}
use axmi_pusher.Channel.Breaker.{BreakerStats, closed_stats, unless_zero}

-- The value of a key: its fields, and when Redis drops it (PEXPIRE), if it does.
pub record Entry : Type 0 where
  pub fields : Assoc String ℕ
  pub expire_at : Option ℕ

pub record RedisBreaker : Type 0 where
  pub threshold : ℕ
  pub cooldown_ms : ℕ
  pub ttl_ms : ℕ

-- The cooldown is given in nanoseconds; `Milliseconds` rounds down.
unfoldable pub new_redis_breaker : ℤ → ℤ → RedisBreaker
new_redis_breaker threshold cooldown =
    let ns = positive_or 30000000000 cooldown in
    record {
      threshold = positive_or 3 threshold;
      cooldown_ms = ns / 1000000;
      ttl_ms = ns * 10 / 1000000;
    }

unfoldable pub redis_key : ℕ → String → Text
redis_key tenant channel = codes "breaker:" ++ tenant_key tenant channel

abbrev pub missing : Entry
missing = record { fields = []; expire_at = none }

-- What Redis holds of an entry at its own time.
unfoldable pub live : ℕ → Entry → Entry
live clock e = elim e.expire_at [ none ↦ e | some t ↦ if leb t clock then missing else e ]

abbrev pub or_0 : Option ℕ → ℕ
or_0 none = 0
or_0 (some n) = n

-- What the loop over HGETALL leaves in a local that starts at 0; a hash has a field once.
unfoldable pub field : String → Assoc String ℕ → ℕ
field f h = or_0 (lookup f h)

-- HSET of one field: it keeps the expiry, and makes the key if it is missing.
abbrev pub hset : String → ℕ → Assoc String ℕ → Assoc String ℕ
hset = insert

-- HINCRBY by 1
abbrev pub hincr : String → Assoc String ℕ → Assoc String ℕ
hincr f h = hset f (field f h + 1) h

abbrev pub fresh_fields : Assoc String ℕ
fresh_fields =
    ("state", 0)
    ∷ ("failures", 0)
    ∷ ("opened_at", 0)
    ∷ ("half_at", 0)
    ∷ ("total_failures", 0)
    ∷ ("total_successes", 0)
    ∷ ("last_success_at", 0)
    ∷ ("last_failure_at", 0)
    ∷ []

abbrev is_empty : Assoc String ℕ → Bool
is_empty [] = true
is_empty (x ∷ h) = false

-- breakerAllowScript
unfoldable pub allow_script : ℕ → ℕ → ℕ → ℕ → Entry → Entry × ℕ
allow_script now cooldown ttl clock e =
    let h = e.fields in
    let state = field "state" h in
    if is_empty h
    then (record { fields = fresh_fields; expire_at = some (clock + ttl) }, 1)
    else if state == 1
    then (if leb (field "opened_at" h + cooldown) now
        then (record e { fields = hset "half_at" now (hset "state" 2 h) }, 1)
        else (e, 0))
    else if state == 2
    then (if leb (field "half_at" h + cooldown) now
        then (record e { fields = hset "half_at" now h }, 1)
        else (e, 0))
    else (e, 1)

-- breakerSuccessScript
unfoldable pub success_script : ℕ → Entry → Entry
success_script now e = record e {
  fields =
      hincr "total_successes"
        (hset "last_success_at" now (hset "failures" 0 (hset "state" 0 e.fields)));
}

-- breakerFailureScript
unfoldable pub failure_script : ℕ → ℕ → Entry → Entry
failure_script now threshold e =
    let state = field "state" e.fields in
    let new_failures = field "failures" e.fields + 1 in
    let counted =
      hincr "total_failures" (hset "last_failure_at" now (hset "failures" new_failures e.fields)) in
    record e {
      fields =
          if state == 2 || leb threshold new_failures
          then hset "opened_at" now (hset "state" 1 counted)
          else counted;
    }

-- breakerIsOpenScript
unfoldable pub is_open_script : ℕ → ℕ → Entry → ℕ
is_open_script now cooldown e =
    if field "state" e.fields == 1
    then (if ltb now (field "opened_at" e.fields + cooldown) then 1 else 0)
    else 0

-- What a call of the client sees: the reply, or an error before or after the script has run.
pub data Outcome : Type 0 where
  replied lost_before lost_after : Outcome

-- The entry of the key after Allow, and its answer: an error lets the call through.
unfoldable pub redis_allow : RedisBreaker → Outcome → ℕ → ℕ → Entry → Entry × Bool
redis_allow b lost_before now clock e = (e, true)
redis_allow b lost_after now clock e =
    ((allow_script now b.cooldown_ms b.ttl_ms clock (live clock e)).0, true)
redis_allow b replied now clock e =
    let (e', answer) = allow_script now b.cooldown_ms b.ttl_ms clock (live clock e) in
    (e', answer == 1)

unfoldable pub redis_success : RedisBreaker → Outcome → ℕ → ℕ → Entry → Entry
redis_success b lost_before now clock e = e
redis_success b _ now clock e = success_script now (live clock e)

unfoldable pub redis_failure : RedisBreaker → Outcome → ℕ → ℕ → Entry → Entry
redis_failure b lost_before now clock e = e
redis_failure b _ now clock e = failure_script now b.threshold (live clock e)

unfoldable pub redis_is_open : RedisBreaker → Outcome → ℕ → ℕ → Entry → Bool
redis_is_open b replied now clock e = is_open_script now b.cooldown_ms (live clock e) == 1
redis_is_open b _ now clock e = false

-- The map from the number to the name; a missing number gives the empty text.
abbrev name_of : ℕ → String
name_of zero = "closed"
name_of (suc zero) = "open"
name_of (suc (suc zero)) = "half_open"
name_of _ = ""

-- breakerStatsScript, and how Stats reads its six numbers
unfoldable pub redis_stats : Outcome → ℕ → Entry → BreakerStats
redis_stats replied clock e =
    let h = (live clock e).fields in
    record {
      state = name_of (field "state" h);
      failures = field "failures" h;
      total_failures = field "total_failures" h;
      total_successes = field "total_successes" h;
      last_success_at = unless_zero (field "last_success_at" h);
      last_failure_at = unless_zero (field "last_failure_at" h);
    }
redis_stats _ clock e = closed_stats
