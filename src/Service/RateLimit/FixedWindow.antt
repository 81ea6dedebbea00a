-- ===== src/Service/RateLimit/FixedWindow.antt =====
-- How many calls a fixed window lets through.
use axmi_pusher.Base.{
  true, [], ◌-◌, arith, length, leb, ◌≡◌, none, ◌+◌, if◌then◌else◌, suc, All, some, ◌∷◌, ◌≤◌,
  Option, ◌<◌, List, ℕ,
}
use axmi_pusher.Service.RateLimit.{min, Window, replied, redis_allow, rate_limit_script}

-- Allow at one time after another for one tenant: the key that it leaves, and how many of the calls
-- were let through.
unfoldable pub redis_each : ℕ → Option Window → List ℕ → Option Window × ℕ
redis_each limit key [] = (key, 0)
redis_each limit key (clock ∷ times) =
    let (key', allowed) = redis_allow limit replied clock key in
    let (last, n) = redis_each limit key' times in (last, if allowed then suc n else n)

in_window :
    (limit clock n t : ℕ)
    → clock < t
    → redis_allow limit replied clock (some (record { current = suc n; expire_at = some t }))
      ≡ (some (record { current = suc (suc n); expire_at = some t }), leb (suc (suc n)) limit)
unfolding redis_allow rate_limit_script
in_window limit clock n t h = ground arith

counted :
    (limit n t : ℕ) (times : List ℕ)
    → All (λ clock. clock < t) times
    → (redis_each limit (some (record { current = suc n; expire_at = some t })) times).1
      ≡ min (length times) (limit - suc n)
unfolding redis_each
counted limit n t [] h = omega arith
counted limit n t (clock ∷ times) h =
    rw (in_window limit clock n t h.0) (by_limit (counted limit (suc n) t times h.1))
  where
    by_limit :
        {m : ℕ}
        → m ≡ min (length times) (limit - suc (suc n))
        → (if leb (suc (suc n)) limit then suc m else m) ≡ min (suc (length times)) (limit - suc n)
    by_limit e = ground arith

opens_window :
    (limit began : ℕ)
    → 1 ≤ limit
    → redis_allow limit replied began none
      ≡ (some (record { current = 1; expire_at = some (began + 60000) }), true)
unfolding redis_allow rate_limit_script
opens_window limit began p = ground arith

-- Of the calls of a tenant that fall in one window, which the first of them opens for a minute, Redis
-- lets through exactly the limit, or all if they are fewer; the replies must come.
pub window_exact :
    (limit began : ℕ) (times : List ℕ)
    → 1 ≤ limit
    → All (λ clock. clock < began + 60000) times
    → (redis_each limit none (began ∷ times)).1 ≡ min (suc (length times)) limit
unfolding redis_each
window_exact limit began times p h =
    rw (opens_window limit began p) (plus_one (counted limit 0 (began + 60000) times h))
  where
    plus_one : {m : ℕ} → m ≡ min (length times) (limit - 1) → suc m ≡ min (suc (length times)) limit
    plus_one e = omega arith
