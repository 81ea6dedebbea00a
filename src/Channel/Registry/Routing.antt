-- ===== src/Channel/Registry/Routing.antt =====
-- What a dispatch does on each path, and how it agrees with the router's view of a channel.
use axmi_pusher.Base.{◌&&◌, not, ℕ, ◌≡◌, true, false, Option, none, some, arith, string_eq, is_some}
use axmi_pusher.Base.Assoc.{lookup}
use axmi_pusher.Models.{TaskMessage}
use axmi_pusher.Channel.Registry.{
  BreakerApi, Sender, Registry, circuit_open, dispatch, through, has_channel, is_available, broken,
}

module _ {W S : Type 0} (api : BreakerApi S) (r : Registry W S) (w : W) (m : TaskMessage) where
  -- A registered channel that the router holds unavailable is not sent on: at the same time a
  -- dispatch returns the breaker's error, and the sender is not called, so the world is as before.
  pub dispatch_unavailable :
      (now done opening : ℕ)
      → has_channel r m.channel ≡ true
      → is_available api r m.tenant_id m.channel now ≡ false
      → let (r', w', e) = dispatch api r w m now done opening in
        (w' ≡ w) × (e ≡ some (circuit_open m.channel))
  unfolding dispatch is_available has_channel
  dispatch_unavailable now done opening h u = by_parts (lookup m.channel r.senders) r.breaker h u
    where
      by_parts :
          (s : Option (Sender W)) (b : Option S)
          → is_some s ≡ true
          → (is_some s && not (broken api b m.tenant_id m.channel now)) ≡ false
          → let (r', w', e) = through api r s b w m now done opening in
            (w' ≡ w) × (e ≡ some (circuit_open m.channel))
      by_parts none b h u = cc
      by_parts (some s) none h u = cc
      by_parts (some s) (some b) h u =
          let no = api.is_open_refuses b m.tenant_id m.channel now (ground arith) in
          ground (arith, no)
