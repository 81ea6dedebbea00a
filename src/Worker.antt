-- ===== src/Worker.antt =====
-- internal/worker/worker.go: the handling of one task, with its retries. Its clock, the statements
-- that the database refuses and the end of its context are the environment.
pub mod Attempts
pub mod Outcome
use axmi_pusher.Base.{
  none, some, [], ◌/◌, ◌-◌, zero, String, true, false, ◌++◌, Text, suc, if◌then◌else◌, Option, Bool,
  ℕ,
}
use axmi_pusher.Base.Keys.{codes, decimal}
use axmi_pusher.Models.{
  MsgStatus, msg_sending, msg_retrying, msg_dead, msg_success, EventType, event_sending,
  event_retry, event_dead, event_success, TaskMessage,
}
use axmi_pusher.Channel.Registry.{
  BreakerApi, Registry, DispatchError, not_registered, circuit_open, send_failed, dispatch,
}
use axmi_pusher.Store.{Store, update_status, save_event}

abbrev pub max_retries : ℕ
max_retries = 3

-- `now k i` is the i-th reading of the clock in attempt k, `refuses k i` whether the database
-- refuses the i-th statement there (3 attempts have statements, the last index is for the end),
-- `cancelled k` whether the context ends in the wait before attempt k; `quote` is %q, strconv.Quote.
pub record WorkerEnv : Type 0 where
  pub now : ℕ → ℕ → ℕ
  pub refuses : ℕ → ℕ → Bool
  pub cancelled : ℕ → Bool
  pub quote : String → Text

unfoldable pub error_text : WorkerEnv → DispatchError → Text
error_text env (not_registered c) = codes "渠道 " ++ (env.quote c ++ codes " 未注册")
error_text env (circuit_open c) = codes "渠道 " ++ (codes c ++ codes " 已熔断")
error_text env (send_failed e) = e

-- errors.As(err, &circuitErr)
abbrev pub is_circuit_open : DispatchError → Bool
is_circuit_open (circuit_open c) = true
is_circuit_open (not_registered c) = false
is_circuit_open (send_failed e) = false

pub record Site (W S : Type 0) : Type 0 where
  pub store : Store
  pub registry : Registry W S
  pub world : W

-- How the loop of attempts ends: its context is cancelled, or with the last error, if any, after
-- the attempt of that number.
pub data LoopEnd : Type 0 where
  left_early : LoopEnd
  ended : ℕ → Option DispatchError → LoopEnd

waits_out : WorkerEnv → ℕ → Bool
waits_out env zero = false
waits_out env (suc k) = env.cancelled (suc k)

pub note : Bool → Bool → ℕ → ℕ → ℕ → MsgStatus → Text → EventType → Text → Store → Store
note refused_status refused_event i at event_at status error event detail s =
    save_event refused_event
      (record { message_id = i; event_type = event; detail = detail; created_at = event_at })
      (update_status refused_status i status error at s)

retry_detail : ℕ → Text
retry_detail attempt = codes "第 " ++ (decimal attempt ++ codes " 次重试")

cost_detail : ℕ → ℕ → Text
cost_detail began now = codes "耗时 " ++ (decimal ((now - began) / 1000000) ++ codes "ms")

module _ {W S : Type 0} (api : BreakerApi S) (env : WorkerEnv) (m : TaskMessage) where
  -- What an attempt after the first writes before it waits.
  before_attempt : ℕ → Site W S → Site W S
  before_attempt zero site = site
  before_attempt (suc k) site = record site {
    store =
        note (env.refuses (suc k) 0) (env.refuses (suc k) 1) m.message_id (env.now (suc k) 0)
          (env.now (suc k) 1) msg_retrying [] event_retry (retry_detail (suc k)) site.store;
  }

  dispatch_from : ℕ → Site W S → Site W S × Option DispatchError
  dispatch_from attempt site =
      let (r, w, e) =
        dispatch api site.registry site.world m (env.now attempt 2) (env.now attempt 3)
          (env.now attempt 4) in
      (record site { registry = r; world = w }, e)

  -- The loop at an attempt, with `left` attempts after it.
  pub attempts : ℕ → ℕ → Site W S → Site W S × LoopEnd
  attempts zero attempt site =
      let ready = before_attempt attempt site in
      let (sent, e) = dispatch_from attempt ready in
      if waits_out env attempt then (ready, left_early) else (sent, ended attempt e)
  attempts (suc left) attempt site =
      let ready = before_attempt attempt site in
      let (sent, e) = dispatch_from attempt ready in
      let again = attempts left (suc attempt) sent in
      if waits_out env attempt then (ready, left_early) else (elim e [
        | none ↦ (sent, ended attempt none)
        | some x ↦ if is_circuit_open x then (sent, ended attempt (some x)) else again
      ])

  -- The verdict that Handle writes after the loop.
  finish : ℕ → Site W S × LoopEnd → Site W S × LoopEnd
  finish began (site, left_early) = (site, left_early)
  finish began (site, ended k (some e)) = (
    record site {
      store =
          note (env.refuses 4 0) (env.refuses 4 1) m.message_id (env.now 4 1) (env.now 4 2) msg_dead
            (error_text env e) event_dead (error_text env e) site.store;
    },
    ended k (some e),
  )
  finish began (site, ended k none) = (
    record site {
      store =
          note (env.refuses 4 0) (env.refuses 4 1) m.message_id (env.now 4 1) (env.now 4 2)
            msg_success [] event_success (cost_detail began (env.now 4 0)) site.store;
    },
    ended k none,
  )

  -- Handle: the site that it leaves, and how its loop has ended.
  unfoldable pub handle : Site W S → Site W S × LoopEnd
  unfolding note finish attempts before_attempt waits_out dispatch_from retry_detail cost_detail
  handle site =
      let begun = record site {
        store =
            note (env.refuses 0 0) (env.refuses 0 1) m.message_id (env.now 0 0) (env.now 0 1)
              msg_sending [] event_sending [] site.store;
      } in
      finish (env.now 0 5) (attempts max_retries 0 begun)
