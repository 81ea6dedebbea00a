-- ===== src/Queue/Rounds.antt =====
-- What a round of the queue starts, and what it leaves.
use axmi_pusher.Base.{
  refl, [], suc, ap, length-take, none, take, ◌∷◌, ◌≡◌, ◌-◌, arith, ◌+◌, some, ◌≤◌, map, List,
  Option, length, ℕ,
}
use axmi_pusher.Store.{Message, Store, claim_pending, reap_stale, claim_query}
use axmi_pusher.Store.Claims.{length-claim_query}
use axmi_pusher.Queue.{DbQueue, RoundEnv, round, round_on, claim_size, task_of, started}

length-map {ℓ} : {A B : Type ℓ} (f : A → B) (xs : List A) → length (map f xs) ≡ length xs
length-map f [] = refl
length-map f (x ∷ xs) = ap suc (length-map f xs)

length-started-le :
    (stop : Option ℕ) (ms : List Message) → length (started stop (some ms)) ≤ length ms
length-started-le none ms = omega (arith, length-map task_of ms)
length-started-le (some n) ms = omega (arith, length-map task_of (take n ms), length-take n ms)

length-round_on-le :
    (q : DbQueue) (env : RoundEnv) (busy : ℕ) (s : Store)
    → let n = length (round_on q env busy s).1 in (n ≤ q.concurrency - busy) × (n ≤ q.batch)
unfolding round_on claim_pending
length-round_on-le q env busy s =
    let reaped =
      (reap_stale env.reap_refused q.lease q.max_attempts env.cutoff_at env.reaped_at s).0 in
    let free = q.concurrency - busy in
    let ms = claim_query (claim_size q free) reaped.messages in
    ground (
      arith,
      length-started-le env.stop_after ms,
      length-claim_query (claim_size q free) reaped.messages,
    )

-- A round starts no more tasks than there are free slots, and no more than the batch: with the slots
-- in use bounded before it, they are bounded after it, so each task finds its slot without waiting.
pub round_within_slots :
    (q : DbQueue) (env : RoundEnv) (busy : ℕ) (s : Option Store)
    → busy ≤ q.concurrency
    → (busy + length (round q env busy s).1 ≤ q.concurrency)
      × (length (round q env busy s).1 ≤ q.batch)
unfolding round
round_within_slots q env busy none h = (omega arith, omega arith)
round_within_slots q env busy (some s) h = ground (arith, length-round_on-le q env busy s)
