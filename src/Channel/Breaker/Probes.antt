-- ===== src/Channel/Breaker/Probes.antt =====
-- Probes of a circuit that has opened: one for each cooldown, until a success closes it.
use axmi_pusher.Base.{
  ℕ, ◌+◌, ◌<◌, ◌≡◌, ◌≢◌, refl, Bool, true, false, List, [], ◌∷◌, All, arith, ap, map,
}
use axmi_pusher.Channel.Breaker.{
  state_closed, state_half_open, Circuit, allow_circuit, failure_circuit, is_open_circuit,
}

-- Allow at one time after another, with the answers.
unfoldable pub allow_each : ℕ → Circuit → List ℕ → Circuit × List Bool
allow_each cooldown c [] = (c, [])
allow_each cooldown c (now ∷ times) =
    let (c', allowed) = allow_circuit cooldown now c in
    let (last, answers) = allow_each cooldown c' times in (last, allowed ∷ answers)

-- An answer that lets a call through a circuit that is not closed makes it a probe.
probe_starts :
    (cooldown now : ℕ) (c : Circuit)
    → c.state ≢ state_closed
    → (allow_circuit cooldown now c).1 ≡ true
    → ((allow_circuit cooldown now c).0.state ≡ state_half_open)
      × ((allow_circuit cooldown now c).0.half_at ≡ now)
unfolding allow_circuit
probe_starts cooldown now c n h = ground arith

waiting :
    (cooldown now : ℕ) (c : Circuit)
    → c.state ≡ state_half_open
    → now < c.half_at + cooldown
    → allow_circuit cooldown now c ≡ (c, false)
unfolding allow_circuit
waiting cooldown now c e h = ground arith

waiting_each :
    (cooldown : ℕ) (c : Circuit) (times : List ℕ)
    → c.state ≡ state_half_open
    → All (λ now. now < c.half_at + cooldown) times
    → allow_each cooldown c times ≡ (c, map (λ _. false) times)
unfolding allow_each
waiting_each cooldown c [] e h = refl
waiting_each cooldown c (now ∷ times) e h =
    rw (waiting cooldown now c e h.0) (rw (waiting_each cooldown c times e h.1))

-- When an open or half-open circuit lets a call through at a time, then of the calls of Allow that
-- follow within the cooldown, with no report in between, none is let through, however many there
-- are.
pub one_probe :
    (cooldown now : ℕ) (c : Circuit) (times : List ℕ)
    → c.state ≢ state_closed
    → (allow_circuit cooldown now c).1 ≡ true
    → All (λ later. later < now + cooldown) times
    → (allow_each cooldown (allow_circuit cooldown now c).0 times).1 ≡ map (λ _. false) times
one_probe cooldown now c times n h near =
    let (half, at) = probe_starts cooldown now c n h in
    ap (λ p. p.1) (waiting_each cooldown (allow_circuit cooldown now c).0 times half (rw at near))

-- A probe that fails opens the circuit again from that time on, whatever the count of failures, and
-- its calls are refused until the cooldown has passed.
pub failed_probe_reopens :
    (threshold cooldown now opening later : ℕ) (c : Circuit)
    → c.state ≡ state_half_open
    → later < opening + cooldown
    → let c' = failure_circuit threshold now opening c in
      (is_open_circuit cooldown later c' ≡ true) × (allow_circuit cooldown later c' ≡ (c', false))
unfolding failure_circuit is_open_circuit allow_circuit
failed_probe_reopens threshold cooldown now opening later c e h = (ground arith, ground arith)
