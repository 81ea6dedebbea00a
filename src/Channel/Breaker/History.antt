-- ===== src/Channel/Breaker/History.antt =====
-- A circuit against the list of calls that its breaker has served.
use axmi_pusher.Base.{
  sym, ◌∙◌, ℕ, suc, ◌+◌, ◌≤◌, String, ◌≡◌, refl, ◌&&◌, Option, none, some, List, [], ◌∷◌, arith,
  Text, text_eq, nat_eq, string_eq, ◌==◌, eq_iff, ◌≢◌, if◌then◌else◌, ap,
}
use axmi_pusher.Base.Int.{ℤ, pos}
use axmi_pusher.Base.Keys.{tenant_key_inj}
use axmi_pusher.Base.Assoc.{lookup, insert, lookup-insert}
use axmi_pusher.Channel.Breaker.{
  state_closed, CircuitBreaker, Circuit, zero_circuit, key, allow, success, failure, allow_circuit,
  success_circuit, failure_circuit, allow_found, success_found, or_zero, new_circuit_breaker,
}
use axmi_pusher.Channel.Breaker.Isolation.{circuit_at}
use axmi_pusher.Channel.Breaker.Machine.{
  IsValid, IsSound, allow-IsValid, new_circuit_breaker-IsValid, success-IsValid, failure-IsValid,
}

-- One call of the Breaker interface that may change a circuit.
pub data Call : Type 0 where
  allow_call : ℕ → String → ℕ → Call
  success_call : ℕ → String → ℕ → Call
  failure_call : ℕ → String → ℕ → ℕ → Call

unfoldable pub serve : CircuitBreaker → Call → CircuitBreaker
serve b (allow_call tenant channel now) = (allow b tenant channel now).0
serve b (success_call tenant channel now) = success b tenant channel now
serve b (failure_call tenant channel now opening) = failure b tenant channel now opening

unfoldable pub serve_all : CircuitBreaker → List Call → CircuitBreaker
serve_all b [] = b
serve_all b (c ∷ cs) = serve_all (serve b c) cs

-- The failures of a tenant's channel that no success of it follows, `n` having gone before.
unfoldable pub streak : ℕ → String → ℕ → List Call → ℕ
streak t a n [] = n
streak t a n (allow_call u c now ∷ cs) = streak t a n cs
streak t a n (success_call u c now ∷ cs) = streak t a (if t == u && a == c then 0 else n) cs
streak t a n (failure_call u c now opening ∷ cs) =
    streak t a (if t == u && a == c then n + 1 else n) cs

key_test : (t u : ℕ) (a c : String) → (key u c == key t a) ≡ (t == u && a == c)
key_test t u a c = ground (
  arith,
  eq_iff a c,
  text_eq.beq_iff (key u c) (key t a),
  λ (e : key u c ≡ key t a). tenant_key_inj u t c a e,
  λ (e : u ≡ t) (f : c ≡ a). same e f,
)
  where
    same : u ≡ t → c ≡ a → key u c ≡ key t a
    same e f = λ i. key (e i) (f i)

abbrev pub failures_at : CircuitBreaker → ℕ → String → ℕ
failures_at b t a = (or_zero (circuit_at b t a)).failures

failures-allow_circuit :
    (cooldown now : ℕ) (c : Circuit) → (allow_circuit cooldown now c).0.failures ≡ c.failures
unfolding allow_circuit
failures-allow_circuit cooldown now c = ground arith

failures-failure_circuit :
    (threshold now opening : ℕ) (c : Circuit)
    → (failure_circuit threshold now opening c).failures ≡ c.failures + 1
unfolding failure_circuit
failures-failure_circuit threshold now opening c = ground arith

module _ (b : CircuitBreaker) (k j : Text) where
  failures-allow_found :
      (now : ℕ) (o : Option Circuit)
      → lookup k b.states ≡ o
      → (or_zero (lookup j (allow_found b k now o).0.states)).failures
        ≡ (or_zero (lookup j b.states)).failures
  unfolding allow_found
  failures-allow_found now none e =
      ground (arith, lookup-insert k j zero_circuit b.states, text_eq.beq_iff k j)
  failures-allow_found now (some c) e = ground (
    arith,
    lookup-insert k j (allow_circuit b.cooldown now c).0 b.states,
    text_eq.beq_iff k j,
    failures-allow_circuit b.cooldown now c,
  )

  failures-success_found :
      (now : ℕ) (o : Option Circuit)
      → lookup k b.states ≡ o
      → (or_zero (lookup j (success_found b k now o).states)).failures
        ≡ (if k == j then 0 else (or_zero (lookup j b.states)).failures)
  unfolding success_found success_circuit
  failures-success_found now none e = ground (arith, text_eq.beq_iff k j)
  failures-success_found now (some c) e =
      ground (arith, lookup-insert k j (success_circuit now c) b.states, text_eq.beq_iff k j)

  failures-failure_found :
      (now opening : ℕ)
      → let c = failure_circuit b.threshold now opening (or_zero (lookup k b.states)) in
        (or_zero (lookup j (insert k c b.states))).failures ≡ (
          if k == j
          then (or_zero (lookup j b.states)).failures + 1
          else (or_zero (lookup j b.states)).failures)
  failures-failure_found now opening =
      let old = or_zero (lookup k b.states) in
      ground (
        arith,
        lookup-insert k j (failure_circuit b.threshold now opening old) b.states,
        text_eq.beq_iff k j,
        failures-failure_circuit b.threshold now opening old,
      )

-- The failures that a circuit counts are those of its tenant's channel, in the calls served so far,
-- that no success of that channel follows.
pub failures-serve_all :
    (b : CircuitBreaker) (t : ℕ) (a : String) (calls : List Call)
    → failures_at (serve_all b calls) t a ≡ streak t a (failures_at b t a) calls
unfolding serve_all serve streak allow success failure
failures-serve_all b t a [] = refl
failures-serve_all b t a (allow_call u c now ∷ calls) =
    failures-serve_all (allow b u c now).0 t a calls
    ∙ ap (λ n. streak t a n calls) (failures-allow_found b (key u c) (key t a) now _ refl)
failures-serve_all b t a (success_call u c now ∷ calls) =
    failures-serve_all (success b u c now) t a calls
    ∙ ap (λ n. streak t a n calls)
        (rw (← key_test t u a c) (failures-success_found b (key u c) (key t a) now _ refl))
failures-serve_all b t a (failure_call u c now opening ∷ calls) =
    failures-serve_all (failure b u c now opening) t a calls
    ∙ ap (λ n. streak t a n calls)
        (rw (← key_test t u a c) (failures-failure_found b (key u c) (key t a) now opening))

serve-IsValid : (b : CircuitBreaker) (call : Call) → IsValid b → IsValid (serve b call)
unfolding serve
serve-IsValid b (allow_call t a now) v = allow-IsValid b v t a now
serve-IsValid b (success_call t a now) v = success-IsValid b v t a now
serve-IsValid b (failure_call t a now opening) v = failure-IsValid b v t a now opening

-- Every call keeps a breaker valid: each circuit that is closed has fewer failures than the
-- threshold, and none has more failures than it has counted in all.
pub serve_all-IsValid :
    (b : CircuitBreaker) (calls : List Call) → IsValid b → IsValid (serve_all b calls)
unfolding serve_all
serve_all-IsValid b [] v = v
serve_all-IsValid b (c ∷ calls) v = serve_all-IsValid (serve b c) calls (serve-IsValid b c v)

threshold-serve_all :
    (b : CircuitBreaker) (calls : List Call) → (serve_all b calls).threshold ≡ b.threshold
unfolding serve_all serve allow allow_found success success_found failure
threshold-serve_all b [] = refl
threshold-serve_all b (c ∷ calls) = threshold-serve_all (serve b c) calls ∙ ground arith

-- A breaker made by the constructor, with a positive threshold, after any calls: when the failures
-- of a channel since its last success reach the threshold, its circuit is there and is not closed.
pub streak_opens :
    (n : ℕ) (cooldown : ℤ) (t : ℕ) (a : String) (calls : List Call)
    → suc n ≤ streak t a 0 calls
    → (c : Circuit) × (circuit_at (serve_all (new_circuit_breaker (pos (suc n)) cooldown) calls) t a
        ≡ some c)
      × (c.state ≢ state_closed)
streak_opens n cooldown t a calls h = found (circuit_at after t a) refl
  where
    before : CircuitBreaker
    before = new_circuit_breaker (pos (suc n)) cooldown

    after : CircuitBreaker
    after = serve_all before calls

    counted : failures_at after t a ≡ streak t a 0 calls
    counted = failures-serve_all before t a calls ∙ ap (λ m. streak t a m calls) fresh
      where
        fresh : failures_at before t a ≡ 0
        fresh = unfold new_circuit_breaker lookup in refl

    limit : after.threshold ≡ suc n
    limit = threshold-serve_all before calls ∙ (unfold new_circuit_breaker in refl)

    found :
        (o : Option Circuit)
        → circuit_at after t a ≡ o
        → (c : Circuit) × (circuit_at after t a ≡ some c) × (c.state ≢ state_closed)
    found none e = absurd (ground (arith, counted))
    found (some c) e =
        let sound : IsSound after.threshold c =
          (serve_all-IsValid before calls
              (new_circuit_breaker-IsValid (pos (suc n)) cooldown)).at_key
            (key t a) c e in
        let same : c.failures ≡ streak t a 0 calls =
          ap (λ o. (or_zero o).failures) (sym e) ∙ counted in
        (c, e, λ shut. omega (arith, same, limit, sound.below shut))
