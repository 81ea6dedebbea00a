-- ===== src/Channel/RedisBreaker/Circuits.antt =====
-- The circuit that the fields of a hash stand for, and each script as a change of it.
use axmi_pusher.Base.{
  ◌↔◌, ◌||◌, nat_eq, ℕ, zero, suc, ◌+◌, ◌<◌, String, ◌≡◌, refl, ◌≢◌, ◌⊎◌, inl, inr, true, Option,
  [], ◌∷◌, arith, leb, ◌==◌, string_eq, if◌then◌else◌, Bool-cases,
}
use axmi_pusher.Base.Assoc.{Assoc, lookup, lookup-insert}
use axmi_pusher.Channel.Breaker.{
  BreakerState, state_closed, state_open, state_half_open, Circuit, allow_circuit, success_circuit,
  failure_circuit, is_open_circuit,
}
use axmi_pusher.Channel.RedisBreaker.{
  Entry, field, hset, hincr, allow_script, success_script, failure_script, is_open_script,
}

pub state_of : ℕ → BreakerState
state_of (suc zero) = state_open
state_of (suc (suc zero)) = state_half_open
state_of _ = state_closed

-- The circuit that the fields of a hash stand for.
unfoldable pub circuit_of : Assoc String ℕ → Circuit
unfolding state_of
circuit_of h = record {
  state = state_of (field "state" h);
  failures = field "failures" h;
  opened_at = field "opened_at" h;
  half_at = field "half_at" h;
  last_success_at = field "last_success_at" h;
  last_failure_at = field "last_failure_at" h;
  total_failures = field "total_failures" h;
  total_successes = field "total_successes" h;
}

field-hset :
    (f g : String) (n : ℕ) (h : Assoc String ℕ)
    → field g (hset f n h) ≡ (if f == g then n else field g h)
unfolding field
field-hset f g n h = ground (arith, lookup-insert f g n h)

-- HSET on the hash is an update of the circuit.
pub success_refines :
    (now : ℕ) (e : Entry)
    → circuit_of (success_script now e).fields ≡ success_circuit now (circuit_of e.fields)
unfolding circuit_of success_script success_circuit
success_refines now e = simp field-hset

state_of-half_iff : (n : ℕ) → (state_of n ≡ state_half_open) ↔ (n ≡ 2)
unfolding state_of
state_of-half_iff zero = ground arith
state_of-half_iff (suc zero) = ground arith
state_of-half_iff (suc (suc zero)) = ground arith
state_of-half_iff (suc (suc (suc n))) = ground arith

state_of-open_iff : (n : ℕ) → (state_of n ≡ state_open) ↔ (n ≡ 1)
unfolding state_of
state_of-open_iff zero = ground arith
state_of-open_iff (suc zero) = ground arith
state_of-open_iff (suc (suc zero)) = ground arith
state_of-open_iff (suc (suc (suc n))) = ground arith

unfoldable pub counted_fields : ℕ → Assoc String ℕ → Assoc String ℕ
counted_fields now h =
    hincr "total_failures" (hset "last_failure_at" now (hset "failures" (field "failures" h + 1) h))

counted_refines :
    (now : ℕ) (h : Assoc String ℕ)
    → circuit_of (counted_fields now h) ≡ record (circuit_of h) {
      failures = field "failures" h + 1;
      last_failure_at = now;
      total_failures = field "total_failures" h + 1;
    }
unfolding circuit_of counted_fields
counted_refines now h = simp field-hset

pub opened_refines :
    (now : ℕ) (h : Assoc String ℕ)
    → circuit_of (hset "opened_at" now (hset "state" 1 h))
      ≡ record (circuit_of h) { state = state_open; opened_at = now }
unfolding circuit_of
opened_refines now h = simp field-hset

half_refines :
    (now : ℕ) (h : Assoc String ℕ)
    → circuit_of (hset "half_at" now (hset "state" 2 h))
      ≡ record (circuit_of h) { state = state_half_open; half_at = now }
unfolding circuit_of
half_refines now h = simp field-hset

probe_refines :
    (now : ℕ) (h : Assoc String ℕ)
    → circuit_of (hset "half_at" now h) ≡ record (circuit_of h) { half_at = now }
unfolding circuit_of
probe_refines now h = simp field-hset

pub is_open_refines :
    (now cooldown : ℕ) (e : Entry)
    → (is_open_script now cooldown e ≡ 1)
      ↔ (is_open_circuit cooldown now (circuit_of e.fields) ≡ true)
unfolding circuit_of is_open_script is_open_circuit
is_open_refines now cooldown e = ground (arith, state_of-open_iff (field "state" e.fields))

pub failure_refines :
    (now threshold : ℕ) (e : Entry)
    → ((circuit_of e.fields).state ≢ state_open) ⊎ ((circuit_of e.fields).failures + 1 < threshold)
    → circuit_of (failure_script now threshold e).fields
      ≡ failure_circuit threshold now now (circuit_of e.fields)
unfolding failure_script failure_circuit counted_fields
failure_refines now threshold e h =
    elim (Bool-cases
      (field "state" e.fields == 2 || leb threshold (field "failures" e.fields + 1))) [
        | inl opens ↦ rw opens (
            rw (opened_refines now (counted_fields now e.fields), counted_refines now e.fields)
              (unfold circuit_of in
                ground (
                  arith,
                  state_of-half_iff (field "state" e.fields),
                  state_of-open_iff (field "state" e.fields),
                )))
        | inr stays ↦ rw stays (
            rw (counted_refines now e.fields) (
              unfold circuit_of in
              ground (
                arith,
                state_of-half_iff (field "state" e.fields),
                state_of-open_iff (field "state" e.fields),
              )))
      ]

allow_present_refines :
    (now cooldown ttl clock : ℕ) (x : String × ℕ) (h : Assoc String ℕ) (t : Option ℕ)
    → let e : Entry = record { fields = x ∷ h; expire_at = t } in
      let (e', answer) = allow_script now cooldown ttl clock e in
      let (c', allowed) = allow_circuit cooldown now (circuit_of e.fields) in
      (circuit_of e'.fields ≡ c') × ((answer ≡ 1) ↔ (allowed ≡ true))
unfolding circuit_of allow_script allow_circuit
allow_present_refines now cooldown ttl clock x h t = ground (
  arith,
  probe_refines now (x ∷ h),
  half_refines now (x ∷ h),
  state_of-half_iff (field "state" (x ∷ h)),
  state_of-open_iff (field "state" (x ∷ h)),
)

pub allow_refines :
    (now cooldown ttl clock : ℕ) (e : Entry)
    → let (e', answer) = allow_script now cooldown ttl clock e in
      let (c', allowed) = allow_circuit cooldown now (circuit_of e.fields) in
      (circuit_of e'.fields ≡ c') × ((answer == 1) ≡ allowed)
allow_refines now cooldown ttl clock e = by_fields e.fields e.expire_at
  where
    by_fields :
        (h : Assoc String ℕ) (t : Option ℕ)
        → let (e', answer) =
            allow_script now cooldown ttl clock (record { fields = h; expire_at = t }) in
          let (c', allowed) = allow_circuit cooldown now (circuit_of h) in
          (circuit_of e'.fields ≡ c') × ((answer == 1) ≡ allowed)
    by_fields [] t = unfold circuit_of allow_script allow_circuit field lookup in (refl, refl)
    by_fields (x ∷ h) t =
        let (same, answered) = allow_present_refines now cooldown ttl clock x h t in
        (same, ground arith)
