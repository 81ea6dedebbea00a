-- ===== src/Tests/Requests.antt =====
-- The acceptance of requests and the batches at concrete inputs.
use axmi_pusher.Base.{if◌then◌else◌, text_beq, string_eq}
use axmi_pusher.Compat.{
  CompatKey, Form, server_chan_v2, parse_compat_key, trim_suffix, trim_prefix, trim_space,
  trim_left, handle_push,
}
use axmi_pusher.Compat.Pushes.{Pushed, handle_push-Pushed}
use axmi_pusher.Models.{Template, active}
use axmi_pusher.Base.{nat_eq, string_eq, text_eq}
use axmi_pusher.Store.{save_message}
use axmi_pusher.Base.Keys.{codes}
use axmi_pusher.Base.{
  nat_eq, inr, Bool, string_eq, refl, arith, ◌+◌, true, false, ℕ, [], some, none, List, ◌≡◌, ◌∷◌,
  ◌==◌,
}
use Prim.Native.Nat.{ℕ}
use axmi_pusher.Base.Assoc.{lookup}
use axmi_pusher.Store.{save_message}
use axmi_pusher.Service.RateLimit.{replied}
use axmi_pusher.Service.Messages.{
  cached, redis_get_script, default_channel, trims_to_empty, Recipient, SendRequest, Services,
  Backend, SendEnv, resolve_channel, duplicate_of,
}
use axmi_pusher.Service.Messages.Send.{
  send, find_duplicate, accept, deliver, conclude, enqueue_all, tally, enqueue_one, hand_over,
}
use axmi_pusher.Service.Messages.Served.{Served, send-Served}
use axmi_pusher.Service.Messages.Duplicates.{CacheAgrees}
use axmi_pusher.Service.Messages.Retry.{retry_is_duplicate}
use axmi_pusher.Service.Batch.{
  BatchTask, BatchTaskConfig, BatchEnv, Codec, process, process_each, batch_pending, batch_running,
}
use axmi_pusher.Service.Batch.Progress.{taken, IsDone, IsQuiet, process-IsDone}
use axmi_pusher.Service.Batch.Cancelled.{IsLate, late_cancel_lost}

-- A queue that counts, and a limiter that always allows.
abbrev services : Services ℕ Unit
services = record {
  publish = λ q t. (q + 1, none);
  allow = λ l t n. (l, true);
  rate_enabled = true;
  has_channel = some (λ c. c == "webhook");
  is_available = none;
}

abbrev empty_backend : Backend ℕ Unit
empty_backend = record {
  store = record { messages = []; events = []; next_id = 1 };
  queue = 0;
  limiter = tt;
  records = [];
  templates = [];
  cache = some [];
}

abbrev env : SendEnv
env = record {
  clock = 1000;
  cache_read = replied;
  find_refused = false;
  template_refused = false;
  now = λ i. 100 + i;
  failed_at = λ i. 200 + i;
  save_refused = λ i. false;
  event_refused = λ i. false;
  mark_refused = λ i. false;
  create_refused = false;
  cache_write = replied;
}

abbrev recipients : List Recipient
recipients = record { target = "x"; params = [] } ∷ record { target = " "; params = [] } ∷ []

abbrev request : SendRequest
request = record {
  request_id = "r1";
  template_code = "";
  title = [];
  content = codes "hi";
  channel = "auto";
  priority = "";
  recipients = recipients;
}

send-Served_example :
    Served
      (some (λ c. c == "webhook"))
      env
      1
      "r1"
      recipients
      []
      (send services env 1 request empty_backend).0.store.messages
      (send services env 1 request empty_backend).1
send-Served_example = send-Served services env (λ q t. refl) 1 request empty_backend

abbrev after_request : Backend ℕ Unit
after_request = (send services env 1 request empty_backend).0

empty_cache-agrees : CacheAgrees [] (some [])
unfolding CacheAgrees lookup
empty_cache-agrees tenant request mid ends h = cc

retry_is_duplicate_example :
    CacheAgrees after_request.records after_request.cache
    × (send services env 1 request after_request ≡ (after_request, inr (duplicate_of 1)))
unfolding send find_duplicate cached redis_get_script lookup accept deliver resolve_channel
    default_channel conclude enqueue_all trims_to_empty tally enqueue_one save_message hand_over
retry_is_duplicate_example =
    retry_is_duplicate services services env env 1 request request empty_backend after_request
      (record { message_id = 1; duplicate = false; count = 1 }) refl empty_cache-agrees refl refl
      refl refl

abbrev config : BatchTaskConfig
config = record {
  template_code = "";
  title = [];
  content = codes "hi";
  channel = "webhook";
  priority = "";
  recipients = recipients;
}

abbrev codec : Codec
codec = record { encode = λ c. some []; decode = λ t. some config }

abbrev waiting_task : BatchTask
waiting_task = record {
  id = 1;
  tenant_id = 1;
  name = [];
  status = batch_pending;
  total = 2;
  success = 0;
  failed = 0;
  config = [];
  error = [];
}

abbrev batch_env : (ℕ → Bool) → BatchEnv
batch_env late = record {
  busy = false;
  start_refused = false;
  load_refused = false;
  template_refused = false;
  early = λ i. false;
  late = late;
  read_refused = λ i. false;
  write_refused = λ i. false;
  end_refused = false;
  sending = env;
}

batch_env-IsQuiet : IsQuiet (batch_env (λ i. false))
unfolding IsQuiet
batch_env-IsQuiet = (λ i. (refl, (refl, refl)), refl)

process-IsDone_example :
    IsDone 2 2 (process services (batch_env (λ i. false)) codec waiting_task empty_backend).0
unfolding taken enqueue_one save_message hand_over
process-IsDone_example =
    process-IsDone services (batch_env (λ i. false)) batch_env-IsQuiet codec config waiting_task
      empty_backend refl refl refl refl refl refl

-- A Cancel after the check of the second and last recipient.
batch_env-IsLate : IsLate 2 (batch_env (λ i. i == 1))
unfolding IsLate
batch_env-IsLate = (λ i. (refl, (refl, (refl, λ h. ground arith))), refl)

late_cancel_lost_example :
    IsDone 2 2
      (process_each services
        (batch_env (λ i. i == 1))
        0
        config
        none
        recipients
        0
        0
        (record waiting_task { status = batch_running })
        empty_backend).0
unfolding taken enqueue_one save_message hand_over
late_cancel_lost_example =
    late_cancel_lost services (batch_env (λ i. i == 1)) config none
      (record waiting_task { status = batch_running }) empty_backend refl batch_env-IsLate

abbrev welcome : ℕ → ℕ → Template
welcome id tenant = record {
  id = id;
  tenant_id = tenant;
  code = "welcome";
  name = [];
  content = codes "hi";
  channel_type = "";
  status = active;
  created_by = 1;
}

abbrev send_key : CompatKey
send_key = record {
  id = 1;
  external_key = "SCT1";
  source = server_chan_v2;
  tenant_id = 4;
  default_channel = "webhook";
  status = active;
  last_used_at = none;
}

abbrev form : Form
form = record { post_form = λ n. if n == "title" then codes "hi" else []; query = λ n. [] }

key_in_path : parse_compat_key (codes "/SCT1.send") ≡ codes "SCT1"
unfolding parse_compat_key trim_suffix trim_prefix trim_space trim_left text_beq
key_in_path = refl

handle_push-Pushed_example :
    Pushed services env
      (λ q t. refl)
      server_chan_v2
      (codes "/SCT1.send")
      (send_key ∷ [])
      []
      (handle_push services env false false 50 server_chan_v2
        (codes "/SCT1.send")
        form
        (send_key ∷ [])
        empty_backend).1.store.messages
handle_push-Pushed_example =
    handle_push-Pushed services env (λ q t. refl) false false 50 server_chan_v2 (codes "/SCT1.send")
      form (send_key ∷ []) empty_backend
