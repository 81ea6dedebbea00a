-- ===== src/Service/Payment/Durations.antt =====
-- How many days a plan may have.
use axmi_pusher.Base.{
  refl, inr, inl, ◌-◌, leb, ◌^◌, Bool-cases, ◌%◌, arith, ◌⊎◌, ◌*◌, ◌+◌, ◌≡◌, ◌≤◌, ◌<◌, ℕ,
}
use axmi_pusher.Base.{leb→le, zero, suc}
use axmi_pusher.Base.Int.{of_bits, pos, negsuc}
use axmi_pusher.Service.Payment.Orders.{plan_duration, add_duration}

day_bits-small :
    (n : ℕ) → n ≤ 106751 → of_bits (n * 86400000000000 % 2 ^ 64) ≡ pos (n * 86400000000000)
day_bits-small n h = ground arith

day_bits-large :
    (n : ℕ)
    → 106752 ≤ n
    → n ≤ 213503
    → of_bits (n * 86400000000000 % 2 ^ 64) ≡ negsuc (2 ^ 64 - 1 - n * 86400000000000)
day_bits-large n h k = ground arith

-- A subscription of a plan of 1 to 106751 days, at most 292 years, ends that many days after it
-- begins, as the product of nanoseconds fits in an int64; one of the next 106752 lengths ends
-- before it begins, as the product is negative. It begins after time zero.
pub subscription_ends :
    (begins days : ℕ)
    → 0 < begins
    → 1 ≤ days
    → days ≤ 213503
    → ((days ≤ 106751)
        × (add_duration begins (plan_duration (pos days)) ≡ begins + days * 86400000000000))
      ⊎ ((106752 ≤ days) × (add_duration begins (plan_duration (pos days)) < begins))
unfolding plan_duration add_duration
subscription_ends begins zero b p q = absurd (omega arith)
subscription_ends begins (suc n) b p q = elim (Bool-cases (leb (suc n) 106751)) [
  | inl short ↦
      inl (
        leb→le (suc n) 106751 short,
        rw (day_bits-small (suc n) (leb→le (suc n) 106751 short)) refl,
      )
  | inr long ↦
      let more : 106752 ≤ suc n = ground arith in
      inr (more, rw (day_bits-large (suc n) more q) (omega arith))
]
