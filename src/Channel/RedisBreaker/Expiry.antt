-- ===== src/Channel/RedisBreaker/Expiry.antt =====
-- When Redis drops the state of a breaker.
use axmi_pusher.Base.{
  All, ◌<◌, string_eq, Bool-cases, inl, inr, leb, nat_eq, ◌==◌, ◌||◌, ℕ, ◌≡◌, refl, ◌∷◌, ◌≤◌, ◌≢◌,
  ◌+◌, List, [], some, true, false, arith,
}
use axmi_pusher.Base.Assoc.{insert-ne-nil, lookup}
use axmi_pusher.Channel.RedisBreaker.{
  RedisBreaker, Entry, missing, live, replied, allow_script, hset, success_script, failure_script,
  redis_allow, redis_is_open, is_open_script, field,
}
use axmi_pusher.Channel.RedisBreaker.Refinement.{
  time_of, entry_step, Report, asks, succeeds, fails, run_entry,
}

-- The key is there and is dropped at `t`.
record DroppedAt (t : ℕ) (e : Entry) : Type 0 where
  present : e.fields ≢ []
  at : e.expire_at ≡ some t

created :
    (b : RedisBreaker) (made : ℕ)
    → DroppedAt (made + b.ttl_ms) (redis_allow b replied made made missing).0
unfolding redis_allow allow_script live
created b made = record { present = λ gone. cc; at = refl }

module _ (t : ℕ) (e : Entry) (d : DroppedAt t e) where
  allow-DroppedAt :
      (now cooldown ttl clock : ℕ) → DroppedAt t (allow_script now cooldown ttl clock e).0
  unfolding allow_script
  allow-DroppedAt now cooldown ttl clock = record {
    present = λ gone. ground (
      arith,
      insert-ne-nil "half_at" now e.fields,
      insert-ne-nil "half_at" now (hset "state" 2 e.fields),
    );
    at = ground arith;
  }

  success-DroppedAt : (now : ℕ) → DroppedAt t (success_script now e)
  unfolding success_script
  success-DroppedAt now = record { present = insert-ne-nil _ _ _; at = d.at }

  failure-DroppedAt : (now threshold : ℕ) → DroppedAt t (failure_script now threshold e)
  unfolding failure_script
  failure-DroppedAt now threshold = record {
    present = λ gone.
        elim (Bool-cases
          (field "state" e.fields == 2 || leb threshold (field "failures" e.fields + 1))) [
            | inl opens ↦ insert-ne-nil _ _ _ (rw opens at gone)
            | inr stays ↦ insert-ne-nil _ _ _ (rw stays at gone)
          ];
    at = d.at;
  }

-- Each report comes before a time.
abbrev pub Before : ℕ → List Report → Type 0
Before t = All (λ r. time_of r < t)

live-before : (t now : ℕ) (e : Entry) → DroppedAt t e → now < t → live now e ≡ e
unfolding live
live-before t now e d h = rw d.at (ground arith)

run_entry-DroppedAt :
    (b : RedisBreaker) (t : ℕ) (e : Entry) (rs : List Report)
    → DroppedAt t e
    → Before t rs
    → DroppedAt t (run_entry b e rs).0
unfolding run_entry entry_step
run_entry-DroppedAt b t e [] d h = d
run_entry-DroppedAt b t e (asks now ∷ rs) d h =
    let still : DroppedAt t (live now e) = rw (live-before t now e d h.0) d in
    run_entry-DroppedAt b t (allow_script now b.cooldown_ms b.ttl_ms now (live now e)).0 rs
      (allow-DroppedAt t (live now e) still now b.cooldown_ms b.ttl_ms now) h.1
run_entry-DroppedAt b t e (succeeds now ∷ rs) d h =
    run_entry-DroppedAt b t (success_script now (live now e)) rs
      (success-DroppedAt t (live now e) (rw (live-before t now e d h.0) d) now) h.1
run_entry-DroppedAt b t e (fails now ∷ rs) d h =
    run_entry-DroppedAt b t (failure_script now b.threshold (live now e)) rs
      (failure-DroppedAt t (live now e) (rw (live-before t now e d h.0) d) now b.threshold) h.1

expired_forgets :
    (b : RedisBreaker) (e : Entry) (t now clock : ℕ)
    → e.expire_at ≡ some t
    → t ≤ clock
    → (redis_is_open b replied now clock e ≡ false) × ((redis_allow b replied now clock e).1 ≡ true)
unfolding redis_is_open redis_allow live is_open_script allow_script field lookup
expired_forgets b e t now clock s h = (ground arith, ground arith)

-- The lifetime of a key is set when Allow makes it, and no call that comes before its end moves that
-- end: from then on, until the next call, the breaker is taken for closed and Allow lets the call
-- through, also in the cooldown of a circuit that has opened since.
pub forgotten_after_ttl :
    (b : RedisBreaker) (made now clock : ℕ) (rs : List Report)
    → Before (made + b.ttl_ms) rs
    → made + b.ttl_ms ≤ clock
    → let first = redis_allow b replied made made missing in
      let e = (run_entry b first.0 rs).0 in
      (redis_is_open b replied now clock e ≡ false) × ((redis_allow b replied now clock e).1 ≡ true)
forgotten_after_ttl b made now clock rs before h =
    let e = (redis_allow b replied made made missing).0 in
    let d = run_entry-DroppedAt b (made + b.ttl_ms) e rs (created b made) before in
    expired_forgets b (run_entry b e rs).0 (made + b.ttl_ms) now clock d.at h
