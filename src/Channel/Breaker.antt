-- ===== src/Channel/Breaker.antt =====
-- internal/channel/breaker.go: the circuit breaker in memory. A time is a count of nanoseconds from
-- Go's zero time; each call of time.Now() is an argument. Every method holds the mutex throughout,
-- so a call is one step. The counters grow by one for each call, and their int64 is left unbounded.
pub mod Isolation
pub mod Machine
pub mod Probes
pub mod History
use axmi_pusher.Base.{
  ℕ, zero, suc, ◌+◌, ◌≤◌, ◌<◌, String, ◌≡◌, refl, Bool, true, false, Option, none, some, List, [],
  ◌∷◌, arith, leb, ltb, ◌==◌, Text, text_eq, if◌then◌else◌,
}
use axmi_pusher.Base.Int.{ℤ, positive_or}
use axmi_pusher.Base.Keys.{tenant_key}
use axmi_pusher.Base.Assoc.{Assoc, lookup, insert}

pub data BreakerState : Type 0 where
  state_closed state_open state_half_open : BreakerState

pub record Circuit : Type 0 where
  pub state : BreakerState
  pub failures : ℕ
  pub opened_at : ℕ
  pub half_at : ℕ
  pub last_success_at : ℕ
  pub last_failure_at : ℕ
  pub total_failures : ℕ
  pub total_successes : ℕ

pub record CircuitBreaker : Type 0 where
  pub states : Assoc Text Circuit
  pub threshold : ℕ
  pub cooldown : ℕ

-- &circuit{}
abbrev pub zero_circuit : Circuit
zero_circuit = record {
  state = state_closed;
  failures = 0;
  opened_at = 0;
  half_at = 0;
  last_success_at = 0;
  last_failure_at = 0;
  total_failures = 0;
  total_successes = 0;
}

-- 30 * time.Second
abbrev default_cooldown : ℕ
default_cooldown = 30000000000

unfoldable pub new_circuit_breaker : ℤ → ℤ → CircuitBreaker
new_circuit_breaker threshold cooldown = record {
  states = [];
  threshold = positive_or 3 threshold;
  cooldown = positive_or default_cooldown cooldown;
}

abbrev pub key : ℕ → String → Text
key = tenant_key

-- now.Sub(since) >= cooldown
abbrev pub has_cooled : ℕ → ℕ → ℕ → Bool
has_cooled cooldown now since = leb (since + cooldown) now

-- The switch of Allow on a circuit that exists.
unfoldable pub allow_circuit : ℕ → ℕ → Circuit → Circuit × Bool
allow_circuit cooldown now c = elim c.state [
  | state_closed ↦ (c, true)
  | state_open ↦
      if has_cooled cooldown now c.opened_at
      then (record c { state = state_half_open; half_at = now }, true)
      else (c, false)
  | state_half_open ↦
      if has_cooled cooldown now c.half_at then (record c { half_at = now }, true) else (c, false)
]

-- What Success does to a circuit that exists.
unfoldable pub success_circuit : ℕ → Circuit → Circuit
success_circuit now c = record c {
  state = state_closed;
  failures = 0;
  last_success_at = now;
  total_successes = c.total_successes + 1;
}

-- What Failure does to a circuit; `opening` is the time that the second time.Now() reads.
unfoldable pub failure_circuit : ℕ → ℕ → ℕ → Circuit → Circuit
failure_circuit threshold now opening c =
    let counted : Circuit = record c {
      failures = c.failures + 1;
      last_failure_at = now;
      total_failures = c.total_failures + 1;
    } in
    let opened : Circuit = record counted { state = state_open; opened_at = opening } in
    elim c.state [
      | state_half_open ↦ opened
      | state_closed ↦ if leb threshold (c.failures + 1) then opened else counted
      | state_open ↦ counted
    ]

allow_found : CircuitBreaker → Text → ℕ → Option Circuit → CircuitBreaker × Bool
allow_found b k now none = (record b { states = insert k zero_circuit b.states }, true)
allow_found b k now (some c) =
    let (c', allowed) = allow_circuit b.cooldown now c in
    (record b { states = insert k c' b.states }, allowed)

unfoldable pub allow : CircuitBreaker → ℕ → String → ℕ → CircuitBreaker × Bool
unfolding allow_found
allow b tenant channel now = let k = key tenant channel in allow_found b k now (lookup k b.states)

success_found : CircuitBreaker → Text → ℕ → Option Circuit → CircuitBreaker
success_found b k now none = b
success_found b k now (some c) = record b { states = insert k (success_circuit now c) b.states }

unfoldable pub success : CircuitBreaker → ℕ → String → ℕ → CircuitBreaker
unfolding success_found
success b tenant channel now =
    let k = key tenant channel in success_found b k now (lookup k b.states)

abbrev pub or_zero : Option Circuit → Circuit
or_zero none = zero_circuit
or_zero (some c) = c

unfoldable pub failure : CircuitBreaker → ℕ → String → ℕ → ℕ → CircuitBreaker
failure b tenant channel now opening =
    let k = key tenant channel in
    let c = failure_circuit b.threshold now opening (or_zero (lookup k b.states)) in
    record b { states = insert k c b.states }

unfoldable pub is_open_circuit : ℕ → ℕ → Circuit → Bool
is_open_circuit cooldown now c = elim c.state [
  | state_open ↦ ltb now (c.opened_at + cooldown)
  | _ ↦ false
]

unfoldable pub is_open : CircuitBreaker → ℕ → String → ℕ → Bool
is_open b tenant channel now = elim (lookup (key tenant channel) b.states) [
  | none ↦ false
  | some c ↦ is_open_circuit b.cooldown now c
]

pub record BreakerStats : Type 0 where
  pub state : String
  pub failures : ℕ
  pub total_failures : ℕ
  pub total_successes : ℕ
  pub last_success_at : Option ℕ
  pub last_failure_at : Option ℕ

unfoldable pub state_name : BreakerState → String
state_name state_open = "open"
state_name state_half_open = "half_open"
state_name state_closed = "closed"

-- !t.IsZero(), then &t
abbrev pub unless_zero : ℕ → Option ℕ
unless_zero zero = none
unless_zero (suc t) = some (suc t)

-- BreakerStats{State: "closed"}
abbrev pub closed_stats : BreakerStats
closed_stats = record {
  state = "closed";
  failures = 0;
  total_failures = 0;
  total_successes = 0;
  last_success_at = none;
  last_failure_at = none;
}

unfoldable pub stats_circuit : Circuit → BreakerStats
unfolding state_name
stats_circuit c = record {
  state = state_name c.state;
  failures = c.failures;
  total_failures = c.total_failures;
  total_successes = c.total_successes;
  last_success_at = unless_zero c.last_success_at;
  last_failure_at = unless_zero c.last_failure_at;
}

unfoldable pub stats : CircuitBreaker → ℕ → String → BreakerStats
stats b tenant channel = elim (lookup (key tenant channel) b.states) [
  | none ↦ closed_stats
  | some c ↦ stats_circuit c
]
