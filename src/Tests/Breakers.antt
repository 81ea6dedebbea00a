-- ===== src/Tests/Breakers.antt =====
-- The breakers, the registry and the worker at concrete inputs.
use axmi_pusher.Base.Assoc.{lookup}
use axmi_pusher.Base.{ℕ, refl, map, arith, true, inl, false, [], ◌≢◌, ◌≡◌, List, ◌∷◌, some}
use axmi_pusher.Base.Int.{pos}
use axmi_pusher.Channel.Breaker.{
  CircuitBreaker, Circuit, new_circuit_breaker, zero_circuit, state_closed, state_open,
  allow_circuit, failure_circuit,
}
use axmi_pusher.Channel.Breaker.History.{
  failures_at, Call, success_call, failure_call, serve_all, streak, streak_opens,
  failures-serve_all,
}
use axmi_pusher.Channel.Breaker.Isolation.{circuit_at}
use axmi_pusher.Channel.Breaker.Probes.{one_probe, allow_each}
use axmi_pusher.Channel.RedisBreaker.{
  failure_script, redis_failure, live, field, RedisBreaker, Entry, missing, fresh_fields,
  redis_allow, redis_is_open, replied,
}
use axmi_pusher.Channel.RedisBreaker.Circuits.{circuit_of}
use axmi_pusher.Channel.RedisBreaker.Refinement.{
  entry_step, asks, fails, run_entry, run_circuit, run_refines,
}
use axmi_pusher.Channel.RedisBreaker.Expiry.{forgotten_after_ttl}

abbrev three_failures : List Call
three_failures =
    failure_call 1 "email" 100 100
    ∷ success_call 2 "email" 101
    ∷ failure_call 1 "email" 102 102
    ∷ failure_call 1 "email" 103 103
    ∷ []

abbrev three_strikes : CircuitBreaker
three_strikes = new_circuit_breaker (pos 3) (pos 50)

streak_opens_example :
    (c : Circuit) × (circuit_at
        (serve_all (new_circuit_breaker (pos 3) (pos 50)) three_failures)
        1
        "email"
      ≡ some c)
    × (c.state ≢ state_closed)
unfolding streak
streak_opens_example = streak_opens 2 (pos 50) 1 "email" three_failures (omega arith)

failures-serve_all_example :
    failures_at (serve_all three_strikes three_failures) 1 "email"
    ≡ streak 1 "email" (failures_at three_strikes 1 "email") three_failures
failures-serve_all_example = failures-serve_all three_strikes 1 "email" three_failures

abbrev opened : Circuit
opened = record zero_circuit { state = state_open; failures = 3; opened_at = 100 }

one_probe_example :
    (allow_each 50 (allow_circuit 50 150 opened).0 (151 ∷ 199 ∷ [])).1
    ≡ map {A = ℕ} (λ _. false) (151 ∷ 199 ∷ [])
unfolding allow_circuit
one_probe_example =
    one_probe 50 150 opened (151 ∷ 199 ∷ []) (λ e. cc) refl (omega arith, (omega arith, tt))

abbrev redis : RedisBreaker
redis = record { threshold = 2; cooldown_ms = 50; ttl_ms = 500 }

abbrev fresh_entry : Entry
fresh_entry = record { fields = fresh_fields; expire_at = some 500 }

run_refines_example :
    (circuit_of (run_entry redis fresh_entry (fails 5 ∷ fails 6 ∷ asks 60 ∷ [])).0.fields
      ≡ (run_circuit redis (circuit_of fresh_fields) (fails 5 ∷ fails 6 ∷ asks 60 ∷ [])).0)
    × ((run_entry redis fresh_entry (fails 5 ∷ fails 6 ∷ asks 60 ∷ [])).1
        ≡ (run_circuit redis (circuit_of fresh_fields) (fails 5 ∷ fails 6 ∷ asks 60 ∷ [])).1)
unfolding circuit_of field lookup failure_circuit entry_step live redis_failure failure_script
run_refines_example =
    run_refines redis fresh_entry (fails 5 ∷ fails 6 ∷ asks 60 ∷ []) (refl, (refl, (refl, tt)))
      (inl (λ e. cc), (inl (λ e. cc), tt))

forgotten_after_ttl_example :
    (redis_is_open redis replied 520 520
        (run_entry redis (redis_allow redis replied 10 10 missing).0 (fails 505 ∷ fails 506 ∷ [])).0
      ≡ false)
    × ((redis_allow redis replied 520 520
          (run_entry redis
            (redis_allow redis replied 10 10 missing).0
            (fails 505 ∷ fails 506 ∷ [])).0).1
        ≡ true)
forgotten_after_ttl_example =
    forgotten_after_ttl redis 10 520 520 (fails 505 ∷ fails 506 ∷ [])
      (omega arith, (omega arith, tt)) (omega arith)
