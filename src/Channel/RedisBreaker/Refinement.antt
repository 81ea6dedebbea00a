-- ===== src/Channel/RedisBreaker/Refinement.antt =====
-- The scripts of the Redis breaker against the breaker in memory.
use mathlib.Core.Path.{ap₂}
use axmi_pusher.Base.{
  ap, ◌≤◌, ◌∙◌, ◌++◌, ◌||◌, nat_eq, ℕ, ◌+◌, ◌<◌, ◌≡◌, refl, ◌≢◌, ◌⊎◌, Bool, true, List, [], ◌∷◌,
  arith, leb, ◌==◌, string_eq,
}
use axmi_pusher.Channel.Breaker.{
  state_open, Circuit, allow_circuit, success_circuit, failure_circuit,
}
use axmi_pusher.Channel.RedisBreaker.{
  replied, redis_failure, redis_success, live, redis_allow, RedisBreaker, Entry, field,
  allow_script, success_script, failure_script,
}
use axmi_pusher.Channel.RedisBreaker.Circuits.{
  circuit_of, counted_fields, success_refines, failure_refines, allow_refines, opened_refines,
}

-- A use of the breaker of one channel, at a time.
pub data Report : Type 0 where
  asks succeeds fails : ℕ → Report

-- Redis and the client have one clock.
abbrev pub time_of : Report → ℕ
time_of (asks now) = now
time_of (succeeds now) = now
time_of (fails now) = now

unfoldable pub entry_step : RedisBreaker → Entry → Report → Entry × List Bool
unfolding redis_allow redis_success redis_failure
entry_step b e (asks now) =
    let (e', allowed) = redis_allow b replied now now e in (e', allowed ∷ [])
entry_step b e (succeeds now) = (redis_success b replied now now e, [])
entry_step b e (fails now) = (redis_failure b replied now now e, [])

circuit_step : RedisBreaker → Circuit → Report → Circuit × List Bool
circuit_step b c (asks now) =
    let (c', allowed) = allow_circuit b.cooldown_ms now c in (c', allowed ∷ [])
circuit_step b c (succeeds now) = (success_circuit now c, [])
circuit_step b c (fails now) = (failure_circuit b.threshold now now c, [])

-- The calls on the entry of one key, one report after another, with the answers to `asks`.
unfoldable pub run_entry : RedisBreaker → Entry → List Report → Entry × List Bool
unfolding entry_step
run_entry b e [] = (e, [])
run_entry b e (r ∷ rs) =
    let (e', said) = entry_step b e r in
    let (last, answers) = run_entry b e' rs in (last, said ++ answers)

-- The methods of the breaker in memory on a circuit, in the same way.
unfoldable pub run_circuit : RedisBreaker → Circuit → List Report → Circuit × List Bool
unfolding circuit_step
run_circuit b c [] = (c, [])
run_circuit b c (r ∷ rs) =
    let (c', said) = circuit_step b c r in
    let (last, answers) = run_circuit b c' rs in (last, said ++ answers)

-- No failure comes in while the circuit is open and at its threshold.
abbrev pub InTime : RedisBreaker → Circuit → List Report → Type 0
InTime b c [] = Unit
InTime b c (asks now ∷ rs) = InTime b (allow_circuit b.cooldown_ms now c).0 rs
InTime b c (succeeds now ∷ rs) = InTime b (success_circuit now c) rs
InTime b c (fails now ∷ rs) =
    ((c.state ≢ state_open) ⊎ (c.failures + 1 < b.threshold))
    × InTime b (failure_circuit b.threshold now now c) rs

-- Redis still has the entry, as it is, at every report.
abbrev pub Held : RedisBreaker → Entry → List Report → Type 0
Held b e [] = Unit
Held b e (r ∷ rs) = (live (time_of r) e ≡ e) × Held b (entry_step b e r).0 rs

-- From an entry and the circuit that it stands for, the Redis breaker and the one in memory give the
-- same answers and end in the same circuit, as long as Redis does not drop the key in between, and
-- no failure of a call that was let through earlier comes in while the circuit is open and at its
-- threshold.
pub run_refines :
    (b : RedisBreaker) (e : Entry) (rs : List Report)
    → Held b e rs
    → InTime b (circuit_of e.fields) rs
    → (circuit_of (run_entry b e rs).0.fields ≡ (run_circuit b (circuit_of e.fields) rs).0)
      × ((run_entry b e rs).1 ≡ (run_circuit b (circuit_of e.fields) rs).1)
unfolding run_entry run_circuit entry_step
run_refines b e [] held h = (refl, refl)
run_refines b e (asks now ∷ rs) held h =
    let (e', answer) = allow_script now b.cooldown_ms b.ttl_ms now (live now e) in
    let (same', answered') = allow_refines now b.cooldown_ms b.ttl_ms now (live now e) in
    let same : circuit_of e'.fields ≡ (allow_circuit b.cooldown_ms now (circuit_of e.fields)).0 =
      same' ∙ ap (λ x. (allow_circuit b.cooldown_ms now (circuit_of x.fields)).0) held.0 in
    let answered : (answer == 1) ≡ (allow_circuit b.cooldown_ms now (circuit_of e.fields)).1 =
      answered' ∙ ap (λ x. (allow_circuit b.cooldown_ms now (circuit_of x.fields)).1) held.0 in
    let (last, answers) = run_refines b e' rs held.1 (rw same h) in
    (
      last ∙ ap (λ c. (run_circuit b c rs).0) same,
      ap₂ ◌∷◌ answered (answers ∙ ap (λ c. (run_circuit b c rs).1) same),
    )
run_refines b e (succeeds now ∷ rs) held h =
    let same =
      success_refines now (live now e)
      ∙ ap (λ x. success_circuit now (circuit_of x.fields)) held.0 in
    let (last, answers) = run_refines b (success_script now (live now e)) rs held.1 (rw same h) in
    (last ∙ ap (λ c. (run_circuit b c rs).0) same, answers ∙ ap (λ c. (run_circuit b c rs).1) same)
run_refines b e (fails now ∷ rs) held h =
    let same =
      failure_refines now b.threshold (live now e) (rw held.0 h.0)
      ∙ ap (λ x. failure_circuit b.threshold now now (circuit_of x.fields)) held.0 in
    let (last, answers) =
      run_refines b (failure_script now b.threshold (live now e)) rs held.1 (rw same h.1) in
    (last ∙ ap (λ c. (run_circuit b c rs).0) same, answers ∙ ap (λ c. (run_circuit b c rs).1) same)

reaches : (threshold n : ℕ) → threshold ≤ n + 1 → (s : ℕ) → (s == 2 || leb threshold (n + 1)) ≡ true
reaches threshold n h s = ground arith

-- Outside that case the two differ: a failure that comes in while the circuit is open and at its
-- threshold starts the cooldown of the Redis breaker again, and not that of the one in memory.
pub late_failure_differs :
    (now threshold : ℕ) (e : Entry)
    → (circuit_of e.fields).state ≡ state_open
    → threshold ≤ (circuit_of e.fields).failures + 1
    → ((circuit_of (failure_script now threshold e).fields).opened_at ≡ now)
      × ((failure_circuit threshold now now (circuit_of e.fields)).opened_at
          ≡ (circuit_of e.fields).opened_at)
unfolding failure_script failure_circuit counted_fields
late_failure_differs now threshold e s h = (
  rw
      (reaches threshold (field "failures" e.fields) (unfold circuit_of in h)
        (field "state" e.fields))
      (rw (opened_refines now (counted_fields now e.fields)) refl),
  ground arith,
)
