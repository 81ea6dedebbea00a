-- ===== src/Tests/Messages.antt =====
-- The store, the queue, the worker and the acceptance of messages at concrete inputs.
use Prim.Native.Nat.{min}
use axmi_pusher.Store.{update_status, has_id, status_eq}
use axmi_pusher.Base.{
  ◌≤◌, All, count, ltb, ◌*◌, some, if◌then◌else◌, false, arith, ◌≡◌, ℕ, ◌∷◌, none, refl, length, [],
  ◌+◌,
}
use axmi_pusher.Base.Int.{pos}
use axmi_pusher.Models.{msg_retrying, MsgStatus, msg_pending, msg_sending, TaskMessage}
use axmi_pusher.Channel.Breaker.{CircuitBreaker, new_circuit_breaker}
use axmi_pusher.Channel.Registry.{
  Registry, Sender, memory_breaker, new_registry, register, set_breaker,
}
use axmi_pusher.Store.{Store, Message, claim_pending, reap_stale, save_message}
use axmi_pusher.Store.Claims.{
  pending_of, claim_takes_pending, handed_out, after_claim, pending_row, HasUniqueIds,
}
use axmi_pusher.Store.Leases.{IsSound, here, next, saves, claims, reaps, reports, Reach-IsSound}
use axmi_pusher.Worker.{WorkerEnv, Site, handle}
use axmi_pusher.Worker.Attempts.{RunsFreely}
use axmi_pusher.Worker.Outcome.{Handled, handle-Handled}
use axmi_pusher.Base.Sort.{IsSorted}

abbrev row : ℕ → MsgStatus → ℕ → ℕ → Message
row i status retries at = record {
  message_id = i;
  tenant_id = 1;
  request_id = "r";
  channel = "email";
  title = [];
  content = [];
  recipient = "a@b";
  status = status;
  error = [];
  retry_count = retries;
  cost_ms = 0;
  created_at = at;
  updated_at = at;
}

abbrev three_rows : Store
three_rows = record {
  messages = row 1 msg_pending 0 10 ∷ row 2 msg_sending 4 20 ∷ row 3 msg_pending 0 30 ∷ [];
  events = [];
  next_id = 4;
}

three_rows_unique : HasUniqueIds three_rows.messages
three_rows_unique i = ground arith

claim_takes_pending_example :
    (length (handed_out 1 40 three_rows) ≡ min 1 (count pending_row three_rows.messages))
    × All (λ m. m.status ≡ msg_pending) (handed_out 1 40 three_rows)
    × IsSorted (λ m. m.message_id) (handed_out 1 40 three_rows)
    × (count pending_row (after_claim 1 40 three_rows).messages
          + length (handed_out 1 40 three_rows)
        ≡ count pending_row three_rows.messages)
    × ((i j : ℕ)
        → 1 ≤ count (has_id i) (handed_out 1 40 three_rows)
        → 1 ≤ pending_of j (after_claim 1 40 three_rows).messages
        → i ≤ j)
claim_takes_pending_example = claim_takes_pending 1 40 three_rows three_rows_unique

abbrev empty_store : Store
empty_store = record { messages = []; events = []; next_id = 1 }

empty_store-IsSound : IsSound 5 (λ i. 0) empty_store
empty_store-IsSound = record {
  unique = λ i. omega arith;
  below = tt;
  capped = tt;
  fresh = λ i far. refl;
  bounded = λ i. omega arith;
}

abbrev first_message : Message
first_message = row 0 msg_pending 0 10

abbrev saved_store : Store
saved_store = (save_message false first_message empty_store).0

abbrev claimed_store : Store
claimed_store = (claim_pending false 3 20 saved_store).0

-- The worker of the first claim reports after its lease has been recovered.
Reach-IsSound_example :
    IsSound 5
      (λ i. 0 + 0 + count (has_id i) (handed_out 3 20 saved_store) + 0 + 0)
      (update_status false 1 msg_retrying [] 42 (reap_stale false 5 5 40 41 claimed_store).0)
Reach-IsSound_example = Reach-IsSound 5 5 (omega arith) empty_store-IsSound (
    next (next (next (next here (saves first_message refl refl)) (claims 3 20)) (reaps 40 41))
      (reports 1 msg_retrying [] 42 refl))

-- A sender that counts its calls and fails on the first two.
abbrev flaky : Sender ℕ
flaky = record { type = "email"; send = λ w m. (w + 1, if ltb w 2 then some [] else none) }

abbrev email_registry : Registry ℕ CircuitBreaker
email_registry = set_breaker (register new_registry flaky) (new_circuit_breaker (pos 3) (pos 50))

abbrev task : TaskMessage
task = record {
  message_id = 1;
  tenant_id = 1;
  request_id = "r";
  channel = "email";
  title = [];
  content = [];
  recipient = "a@b";
  priority = "";
  retry_count = 0;
  created_at = 10;
}

abbrev free_env : WorkerEnv
free_env = record {
  now = λ k i. 100 + k * 10 + i;
  refuses = λ k i. false;
  cancelled = λ k. false;
  quote = λ s. [];
}

free_env-RunsFreely : RunsFreely free_env
free_env-RunsFreely = record { granted = λ k i. refl; lives = λ k. refl }

abbrev site : Site ℕ CircuitBreaker
site = record { store = three_rows; registry = email_registry; world = 0 }

handle-Handled_example :
    Handled memory_breaker free_env task site (handle memory_breaker free_env task site)
handle-Handled_example = handle-Handled memory_breaker free_env task free_env-RunsFreely site
