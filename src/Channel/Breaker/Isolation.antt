-- ===== src/Channel/Breaker/Isolation.antt =====
-- The breaker of one tenant and channel is not touched by a call for another.
use axmi_pusher.Base.{
  refl, Text, Option, none, some, ℕ, String, ◌≡◌, ◌≢◌, false, ◌==◌, text_eq, Bool-cases, inl, inr,
  ◌⊎◌,
}
use axmi_pusher.Base.Keys.{tenant_key_inj}
use axmi_pusher.Base.Assoc.{lookup, lookup-insert_ne}
use axmi_pusher.Channel.Breaker.{
  failure, allow_found, success, success_found, CircuitBreaker, Circuit, key, allow,
}

-- The circuit of a tenant's channel, if the map has one.
abbrev pub circuit_at : CircuitBreaker → ℕ → String → Option Circuit
circuit_at b tenant channel = lookup (key tenant channel) b.states

-- Keys of different pairs of tenant and channel differ.
keys_differ : (t u : ℕ) (a c : String) → (t ≢ u) ⊎ (a ≢ c) → (key t a == key u c) ≡ false
keys_differ t u a c h = elim (Bool-cases (key t a == key u c)) [
  | inl same ↦
      let e = tenant_key_inj t u a c ((text_eq.beq_iff (key t a) (key u c)).0 same) in
      absurd (elim h [ inl n ↦ n e.0 | inr n ↦ n e.1 ])
  | inr other ↦ other
]

module _ (b : CircuitBreaker) (k j : Text) (now : ℕ) (apart : (k == j) ≡ false) where
  allow_found_elsewhere :
      (o : Option Circuit) → lookup j (allow_found b k now o).0.states ≡ lookup j b.states
  unfolding allow_found
  allow_found_elsewhere none = lookup-insert_ne k j _ b.states apart
  allow_found_elsewhere (some c) = lookup-insert_ne k j _ b.states apart

  success_found_elsewhere :
      (o : Option Circuit) → lookup j (success_found b k now o).states ≡ lookup j b.states
  unfolding success_found
  success_found_elsewhere none = refl
  success_found_elsewhere (some c) = lookup-insert_ne k j _ b.states apart

-- Two pairs of a tenant and a channel that differ in either part have separate circuits: Allow,
-- Success and Failure for the one leave the circuit of the other as it is.
pub calls_elsewhere :
    (b : CircuitBreaker) (t u : ℕ) (a c : String) (now opening : ℕ)
    → (t ≢ u) ⊎ (a ≢ c)
    → (circuit_at (allow b t a now).0 u c ≡ circuit_at b u c)
      × (circuit_at (success b t a now) u c ≡ circuit_at b u c)
      × (circuit_at (failure b t a now opening) u c ≡ circuit_at b u c)
unfolding allow success failure
calls_elsewhere b t u a c now opening other =
    let apart = keys_differ t u a c other in
    (
      allow_found_elsewhere b (key t a) (key u c) now apart (circuit_at b t a),
      success_found_elsewhere b (key t a) (key u c) now apart (circuit_at b t a),
      lookup-insert_ne (key t a) (key u c) _ b.states apart,
    )
