-- ===== src/Channel/Breaker/Machine.antt =====
-- The states of one circuit: which calls it refuses, and that a closed one is below the threshold.
use mathlib.Core.Path.{subst}
use axmi_pusher.Base.{
  Bool-cases, if◌then◌else◌, ℕ, ◌+◌, ◌≤◌, ◌<◌, String, ◌≡◌, refl, ◌↔◌, true, false, Option, none,
  some, arith, Text, text_eq, ◌==◌, inl, inr,
}
use axmi_pusher.Base.Int.{ℤ, positive_or-pos}
use axmi_pusher.Base.Assoc.{lookup, insert, lookup-insert}
use axmi_pusher.Channel.Breaker.{
  key, new_circuit_breaker, success_found, success, failure, BreakerState, state_closed, state_open,
  state_half_open, CircuitBreaker, Circuit, zero_circuit, allow, allow_circuit, success_circuit,
  failure_circuit, allow_found, is_open_circuit, is_open, or_zero,
}

-- When Allow refuses: in the cooldown that follows the opening, or the last probe.
pub data Refuses (cooldown now : ℕ) (c : Circuit) : Type 0 where
  cooling : c.state ≡ state_open → now < c.opened_at + cooldown → Refuses cooldown now c
  probing : c.state ≡ state_half_open → now < c.half_at + cooldown → Refuses cooldown now c

refusal_found :
    (cooldown now : ℕ) (c : Circuit)
    → (allow_circuit cooldown now c).1 ≡ false
    → Refuses cooldown now c
unfolding allow_circuit
refusal_found cooldown now c h = by_state c.state refl
  where
    by_state : (s : BreakerState) → c.state ≡ s → Refuses cooldown now c
    by_state state_closed e = ground arith
    by_state state_open e = cooling e (ground arith)
    by_state state_half_open e = probing e (ground arith)

refusal_given :
    (cooldown now : ℕ) (c : Circuit)
    → Refuses cooldown now c
    → allow_circuit cooldown now c ≡ (c, false)
unfolding allow_circuit
refusal_given cooldown now c (cooling e h) = ground arith
refusal_given cooldown now c (probing e h) = ground arith

-- Allow refuses exactly in the cooldown of an open circuit or of a probe, and a refusal changes
-- nothing.
pub Refuses-iff :
    (cooldown now : ℕ) (c : Circuit)
    → (allow_circuit cooldown now c ≡ (c, false)) ↔ Refuses cooldown now c
Refuses-iff cooldown now c = (λ h. refusal_found cooldown now c (cc), refusal_given cooldown now c)

-- What the router takes for open is refused by Allow at the same time.
pub is_open_refuses :
    (b : CircuitBreaker) (tenant : ℕ) (channel : String) (now : ℕ)
    → is_open b tenant channel now ≡ true
    → (allow b tenant channel now).1 ≡ false
unfolding is_open is_open_circuit allow allow_found allow_circuit
is_open_refuses b tenant channel now h = ground arith

pub record IsSound (threshold : ℕ) (c : Circuit) : Type 0 where
  pub below : c.state ≡ state_closed → c.failures < threshold
  pub counted : c.failures ≤ c.total_failures

module _ {threshold : ℕ} {c : Circuit} (s : IsSound threshold c) where
  allow_circuit-IsSound : (cooldown now : ℕ) → IsSound threshold (allow_circuit cooldown now c).0
  unfolding allow_circuit
  allow_circuit-IsSound cooldown now = ground arith

  success_circuit-IsSound : (now : ℕ) → 0 < threshold → IsSound threshold (success_circuit now c)
  unfolding success_circuit
  success_circuit-IsSound now p = ground arith

  failure_circuit-IsSound :
      (now opening : ℕ) → IsSound threshold (failure_circuit threshold now opening c)
  unfolding failure_circuit
  failure_circuit-IsSound now opening = ground arith

zero_circuit-IsSound : (threshold : ℕ) → 0 < threshold → IsSound threshold zero_circuit
zero_circuit-IsSound threshold p = ground arith

or_zero-IsSound :
    (threshold : ℕ) (o : Option Circuit)
    → 0 < threshold
    → ((c : Circuit) → o ≡ some c → IsSound threshold c)
    → IsSound threshold (or_zero o)
or_zero-IsSound threshold none p h = zero_circuit-IsSound threshold p
or_zero-IsSound threshold (some c) p h = h c refl

-- A breaker as its calls leave it: the threshold is positive and each circuit is sound.
pub record IsValid (b : CircuitBreaker) : Type 0 where
  pub positive : 0 < b.threshold
  pub at_key : (k : Text) (c : Circuit) → lookup k b.states ≡ some c → IsSound b.threshold c

insert-IsValid :
    (b : CircuitBreaker) (k : Text) (c : Circuit)
    → IsValid b
    → IsSound b.threshold c
    → IsValid (record b { states = insert k c b.states })
insert-IsValid b k c v s = record {
  positive = v.positive;
  at_key = λ j d e. found j d (rw (lookup-insert k j c b.states) at e);
}
  where
    found :
        (j : Text) (d : Circuit)
        → if◌then◌else◌ (k == j) (some c) (lookup j b.states) ≡ some d
        → IsSound b.threshold d
    found j d e = elim (Bool-cases (k == j)) [
      | inl same ↦ subst (IsSound b.threshold) (ground arith) s
      | inr other ↦ v.at_key j d (ground arith)
    ]

module _ (b : CircuitBreaker) (v : IsValid b) where
  allow_found-IsValid :
      (k : Text) (now : ℕ) (o : Option Circuit)
      → lookup k b.states ≡ o
      → IsValid (allow_found b k now o).0
  unfolding allow_found
  allow_found-IsValid k now none e =
      insert-IsValid b k zero_circuit v (zero_circuit-IsSound b.threshold v.positive)
  allow_found-IsValid k now (some c) e =
      insert-IsValid b k _ v (allow_circuit-IsSound (v.at_key k c e) b.cooldown now)

  success_found-IsValid :
      (k : Text) (now : ℕ) (o : Option Circuit)
      → lookup k b.states ≡ o
      → IsValid (success_found b k now o)
  unfolding success_found
  success_found-IsValid k now none e = v
  success_found-IsValid k now (some c) e =
      insert-IsValid b k _ v (success_circuit-IsSound (v.at_key k c e) now v.positive)

  pub allow-IsValid :
      (tenant : ℕ) (channel : String) (now : ℕ) → IsValid (allow b tenant channel now).0
  unfolding allow
  allow-IsValid tenant channel now = allow_found-IsValid (key tenant channel) now _ refl

  pub success-IsValid :
      (tenant : ℕ) (channel : String) (now : ℕ) → IsValid (success b tenant channel now)
  unfolding success
  success-IsValid tenant channel now = success_found-IsValid (key tenant channel) now _ refl

  pub failure-IsValid :
      (tenant : ℕ) (channel : String) (now opening : ℕ)
      → IsValid (failure b tenant channel now opening)
  unfolding failure
  failure-IsValid tenant channel now opening =
      let k = key tenant channel in
      insert-IsValid b k _ v (
        failure_circuit-IsSound
          (or_zero-IsSound b.threshold (lookup k b.states) v.positive (v.at_key k)) now opening)

pub new_circuit_breaker-IsValid :
    (threshold cooldown : ℤ) → IsValid (new_circuit_breaker threshold cooldown)
unfolding new_circuit_breaker lookup
new_circuit_breaker-IsValid threshold cooldown = record {
  positive = positive_or-pos 3 threshold (omega arith);
  at_key = λ k c e. cc;
}
