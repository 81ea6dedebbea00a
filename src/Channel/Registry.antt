-- ===== src/Channel/Registry.antt =====
-- internal/channel/channel.go: the registry that dispatches a task to the sender of its channel.
-- A sender acts on a world `W` that the model leaves open; its error is a text.

pub mod Routing
use axmi_pusher.Base.{
  [], ℕ, String, Text, ◌≡◌, Bool, true, false, Option, none, some, string_eq, is_some, not, ◌&&◌,
  if◌then◌else◌,
}
use axmi_pusher.Base.Assoc.{Assoc, lookup, insert}
use axmi_pusher.Models.{TaskMessage}
use axmi_pusher.Channel.Breaker.{
  CircuitBreaker, BreakerStats, closed_stats, allow, success, failure, is_open, stats,
}
use axmi_pusher.Channel.Breaker.Machine.{is_open_refuses}

-- The interface Breaker over the state of an implementation, with what the registry relies on:
-- Allow refuses what IsOpen reports open. The times are those that the implementation reads.
pub record BreakerApi (S : Type 0) : Type 0 where
  pub allow : S → ℕ → String → ℕ → S × Bool
  pub success : S → ℕ → String → ℕ → S
  pub failure : S → ℕ → String → ℕ → ℕ → S
  pub is_open : S → ℕ → String → ℕ → Bool
  pub stats : S → ℕ → String → BreakerStats
  pub is_open_refuses :
      (s : S) (tenant : ℕ) (channel : String) (now : ℕ)
      → is_open s tenant channel now ≡ true
      → (allow s tenant channel now).1 ≡ false

abbrev pub memory_breaker : BreakerApi CircuitBreaker
memory_breaker = record {
  allow = allow;
  success = success;
  failure = failure;
  is_open = is_open;
  stats = stats;
  is_open_refuses = is_open_refuses;
}

pub record Sender (W : Type 0) : Type 0 where
  pub type : String
  pub send : W → TaskMessage → W × Option Text

pub record Registry (W S : Type 0) : Type 0 where
  pub senders : Assoc String (Sender W)
  pub breaker : Option S

pub data DispatchError : Type 0 where
  not_registered circuit_open : String → DispatchError
  send_failed : Text → DispatchError

module _ {W S : Type 0} where
  abbrev pub new_registry : Registry W S
  new_registry = record { senders = []; breaker = none }

  unfoldable pub register : Registry W S → Sender W → Registry W S
  register r s = record r { senders = insert s.type s r.senders }

  unfoldable pub set_breaker : Registry W S → S → Registry W S
  set_breaker r b = record r { breaker = some b }

  unfoldable pub has_channel : Registry W S → String → Bool
  has_channel r channel = is_some (lookup channel r.senders)

abbrev sent : Option Text → Option DispatchError
sent none = none
sent (some e) = some (send_failed e)

module _ {S : Type 0} (api : BreakerApi S) where
  -- What the breaker is told when Send has returned.
  report : S → TaskMessage → Option Text → ℕ → ℕ → S
  report b m none now opening = api.success b m.tenant_id m.channel now
  report b m (some e) now opening = api.failure b m.tenant_id m.channel now opening

  broken : Option S → ℕ → String → ℕ → Bool
  broken none tenant channel now = false
  broken (some b) tenant channel now = api.is_open b tenant channel now

module _ {W S : Type 0} (api : BreakerApi S) where
  -- Send behind the breaker: `now` is the time of Allow, `done` and `opening` those of the report.
  guarded :
      Registry W S
      → Sender W
      → S
      → W
      → TaskMessage
      → ℕ
      → ℕ
      → ℕ
      → Registry W S × W × Option DispatchError
  unfolding report
  guarded r s b w m now done opening =
      let (b', allowed) = api.allow b m.tenant_id m.channel now in
      let (w', e) = s.send w m in
      if allowed
      then (record r { breaker = some (report api b' m e done opening) }, w', sent e)
      else (record r { breaker = some b' }, w, some (circuit_open m.channel))

  through :
      Registry W S
      → Option (Sender W)
      → Option S
      → W
      → TaskMessage
      → ℕ
      → ℕ
      → ℕ
      → Registry W S × W × Option DispatchError
  unfolding guarded
  through r none b w m now done opening = (r, w, some (not_registered m.channel))
  through r (some s) none w m now done opening = let (w', e) = s.send w m in (r, w', sent e)
  through r (some s) (some b) w m now done opening = guarded r s b w m now done opening

  unfoldable pub dispatch :
      Registry W S → W → TaskMessage → ℕ → ℕ → ℕ → Registry W S × W × Option DispatchError
  unfolding through
  dispatch r w m now done opening =
      through r (lookup m.channel r.senders) r.breaker w m now done opening

  unfoldable pub is_available : Registry W S → ℕ → String → ℕ → Bool
  unfolding broken has_channel
  is_available r tenant channel now =
      has_channel r channel && not (broken api r.breaker tenant channel now)

  unfoldable pub breaker_stats : Registry W S → ℕ → String → BreakerStats
  breaker_stats r tenant channel = stats_of r.breaker
    where
      stats_of : Option S → BreakerStats
      stats_of none = closed_stats
      stats_of (some b) = api.stats b tenant channel
