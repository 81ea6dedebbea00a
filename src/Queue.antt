-- ===== src/Queue.antt =====
-- internal/queue/dbqueue.go: the queue that polls the message table. The ticker and the goroutines
-- are the environment: `busy` is len(sem), the tasks that still hold a slot when a round begins, and
-- the tasks of a round are those that it starts.
pub mod Rounds
use axmi_pusher.Base.{
  nat_eq, ◌==◌, none, take, map, Text, some, [], ltb, ◌-◌, List, Option, if◌then◌else◌, Bool, ℕ,
}
use axmi_pusher.Base.Int.{ℤ, positive_or}
use axmi_pusher.Models.{TaskMessage}
use axmi_pusher.Store.{Message, Store, claim_pending, reap_stale}

pub record DbQueue : Type 0 where
  pub interval : ℕ
  pub batch : ℕ
  pub concurrency : ℕ
  pub max_attempts : ℕ
  pub lease : ℕ

-- Durations are in nanoseconds: 500 milliseconds and 5 minutes.
unfoldable pub new_db_queue : ℤ → ℤ → ℤ → ℤ → ℤ → DbQueue
new_db_queue interval batch concurrency max_attempts lease = record {
  interval = positive_or 500000000 interval;
  batch = positive_or 100 batch;
  concurrency = positive_or 4 concurrency;
  max_attempts = positive_or 5 max_attempts;
  lease = positive_or 300000000000 lease;
}

-- The task that `work` makes of a row; it leaves the priority empty.
unfoldable pub task_of : Message → TaskMessage
task_of m = record {
  message_id = m.message_id;
  tenant_id = m.tenant_id;
  request_id = m.request_id;
  channel = m.channel;
  title = m.title;
  content = m.content;
  recipient = m.recipient;
  priority = "";
  retry_count = m.retry_count;
  created_at = m.created_at;
}

-- What a round meets: whether it was cancelled before it began, which statements the database
-- refuses, the clock at the cutoff, at the recovery and at the claim, and after how many tasks, if
-- at all, the loop that hands out sees the end of the context or the queue.
pub record RoundEnv : Type 0 where
  pub cancelled : Bool
  pub reap_refused : Bool
  pub claim_refused : Bool
  pub cutoff_at : ℕ
  pub reaped_at : ℕ
  pub claimed_at : ℕ
  pub stop_after : Option ℕ

-- if free < claim { claim = free }
abbrev pub claim_size : DbQueue → ℕ → ℕ
claim_size q free = if ltb free q.batch then free else q.batch

abbrev stopped : Option ℕ → List Message → List Message
stopped none ms = ms
stopped (some n) ms = take n ms

abbrev started : Option ℕ → Option (List Message) → List TaskMessage
started stop none = []
started stop (some ms) = map task_of (stopped stop ms)

-- The store after a round and the tasks that it starts; `none` is a store that is not ready yet.
round_on : DbQueue → RoundEnv → ℕ → Store → Store × List TaskMessage
round_on q env busy s =
    let reaped =
      (reap_stale env.reap_refused q.lease q.max_attempts env.cutoff_at env.reaped_at s).0 in
    let free = q.concurrency - busy in
    let (claimed, ms) = claim_pending env.claim_refused (claim_size q free) env.claimed_at reaped in
    if free == 0 then (reaped, []) else (claimed, started env.stop_after ms)

unfoldable pub round : DbQueue → RoundEnv → ℕ → Option Store → Option Store × List TaskMessage
unfolding round_on
round q env busy none = (none, [])
round q env busy (some s) =
    let (s', tasks) = round_on q env busy s in
    if env.cancelled then (some s, []) else (some s', tasks)

-- Publish does nothing: the row that SaveMessage wrote is the entry in the queue.
unfoldable pub publish : TaskMessage → Option Text
publish m = none
