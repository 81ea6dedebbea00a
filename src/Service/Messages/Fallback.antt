-- ===== src/Service/Messages/Fallback.antt =====
-- The choice of a channel that is available.
use axmi_pusher.Base.{
  [], inr, string_eq, inl, ◌∷◌, arith, Bool-cases, some, true, ◌≤◌, ◌||◌, false, ◌≡◌, ◌==◌, List, ℕ,
  Bool, String, Option, count,
}
use axmi_pusher.Service.Messages.{
  Template, pick_from, pick_fallback_channel, fallback_order, resolve_channel, default_channel,
}

pick_from-up :
    (has : Option (String → Bool)) (f : ℕ → String → Bool) (tenant : ℕ) (preferred : String)
    (chs : List String)
    → f tenant preferred ≡ false
    → 1 ≤ count (f tenant) chs
    → f tenant (pick_from has (some f) tenant preferred chs) ≡ true
unfolding pick_from
pick_from-up has f tenant preferred [] down h = absurd (omega arith)
pick_from-up has f tenant preferred (ch ∷ chs) down h =
    grind (arith, string_eq.beq_iff ch preferred, pick_from-up has f tenant preferred chs down)

-- Where IsAvailable is given, a request that leaves the channel open gets a channel that is
-- available, if any of the fallback order is, whatever channel its template prefers.
pub resolves_to_available :
    (has : Option (String → Bool)) (f : ℕ → String → Bool) (tenant : ℕ) (channel : String)
    (template : Option Template)
    → (channel == "" || channel == "auto") ≡ true
    → 1 ≤ count (f tenant) fallback_order
    → f tenant (resolve_channel has (some f) tenant channel template) ≡ true
unfolding resolve_channel pick_fallback_channel
resolves_to_available has f tenant channel template auto h =
    elim (Bool-cases (f tenant (default_channel template))) [
      | inl up ↦ rw (auto, up) up
      | inr down ↦
          rw (auto, down)
            (pick_from-up has f tenant (default_channel template) fallback_order down h)
    ]
