-- ===== src/Config/Priority.antt =====
-- Where the numbers of the queue come from.
use axmi_pusher.Base.{
  inl, inr, String, Text, Option, [], false, none, some, ◌≡◌, refl, ◌==◌, if◌then◌else◌, string_eq,
  text_eq, zero, suc, Bool-cases, sym, ap, ◌∙◌,
}
use axmi_pusher.Base.Int.{ℤ, pos, negsuc}
use axmi_pusher.Base.Keys.{codes}
use axmi_pusher.Config.{Config, QueueConfig, default_config}
use axmi_pusher.Config.Numbers.{atoi}
use axmi_pusher.Config.Loading.{
  apply_defaults, apply_env, parse_config, finished, int_or, env_positive, positive_of, queue_env,
  queue_defaults,
}
use axmi_pusher.Config.Usable.{is_positive}

-- What a number of the queue is taken from: a positive number in the environment, else a positive one
-- in the file, else the default value.
abbrev pub chosen : Option ℤ → ℤ → ℤ → ℤ
chosen none file fallback = if is_positive file then file else fallback
chosen (some n) file fallback =
    if is_positive n then n else (if is_positive file then file else fallback)

abbrev pub number_of : String → Option ℤ
number_of v = if v == "" then none else atoi (codes v)

abbrev pub chosen_queue : (String → String) → QueueConfig → QueueConfig
chosen_queue env file =
    let d = default_config.queue in
    record {
      poll_interval =
          chosen (number_of (env "MP_QUEUE_POLL_INTERVAL")) file.poll_interval d.poll_interval;
      batch_size = chosen (number_of (env "MP_QUEUE_BATCH_SIZE")) file.batch_size d.batch_size;
      claim_timeout =
          chosen (number_of (env "MP_QUEUE_CLAIM_TIMEOUT")) file.claim_timeout d.claim_timeout;
      max_claim_attempts =
          chosen (number_of (env "MP_QUEUE_MAX_CLAIM_ATTEMPTS")) file.max_claim_attempts
            d.max_claim_attempts;
      concurrency = chosen (number_of (env "MP_QUEUE_CONCURRENCY")) file.concurrency d.concurrency;
    }

int_or-chosen : (d file : ℤ) → int_or d file ≡ (if is_positive file then file else d)
int_or-chosen d (pos zero) = refl
int_or-chosen d (pos (suc n)) = refl
int_or-chosen d (negsuc n) = refl

positive_of-chosen : (o : Option ℤ) (file d : ℤ) → int_or d (positive_of o file) ≡ chosen o file d
positive_of-chosen none file d = int_or-chosen d file
positive_of-chosen (some (pos zero)) file d = int_or-chosen d file
positive_of-chosen (some (pos (suc n))) file d = refl
positive_of-chosen (some (negsuc n)) file d = int_or-chosen d file

env_positive-chosen :
    (v : String) (file d : ℤ) → int_or d (env_positive v file) ≡ chosen (number_of v) file d
env_positive-chosen v file d = elim (Bool-cases (v == "")) [
  | inl unset ↦ rw unset (int_or-chosen d file)
  | inr given ↦ rw given (positive_of-chosen (atoi (codes v)) file d)
]

finished-queue :
    (env : String → String) (q : QueueConfig)
    → queue_defaults (queue_env env q) ≡ chosen_queue env q
finished-queue env q = λ i. record {
  poll_interval =
      env_positive-chosen (env "MP_QUEUE_POLL_INTERVAL") q.poll_interval
        default_config.queue.poll_interval i;
  batch_size =
      env_positive-chosen (env "MP_QUEUE_BATCH_SIZE") q.batch_size default_config.queue.batch_size
        i;
  claim_timeout =
      env_positive-chosen (env "MP_QUEUE_CLAIM_TIMEOUT") q.claim_timeout
        default_config.queue.claim_timeout i;
  max_claim_attempts =
      env_positive-chosen (env "MP_QUEUE_MAX_CLAIM_ATTEMPTS") q.max_claim_attempts
        default_config.queue.max_claim_attempts i;
  concurrency =
      env_positive-chosen (env "MP_QUEUE_CONCURRENCY") q.concurrency
        default_config.queue.concurrency i;
}

parsed-finished :
    (unmarshal : Config → Text → Option Config) (env : String → String) (content : Text)
    (file c : Config)
    → (content == []) ≡ false
    → unmarshal default_config content ≡ some file
    → parse_config unmarshal env content ≡ some c
    → finished unmarshal env file ≡ c
unfolding parse_config
parsed-finished unmarshal env content file c given decoded h =
    let h' = rw (given, decoded) at h in cc

-- Of each number of the queue, a positive number in the environment comes before a positive one in the
-- file, and that before the default value; others are passed over.
pub parse_config-queue :
    (unmarshal : Config → Text → Option Config) (env : String → String) (content : Text)
    (file c : Config)
    → (content == []) ≡ false
    → unmarshal default_config content ≡ some file
    → parse_config unmarshal env content ≡ some c
    → c.queue ≡ chosen_queue env file.queue
unfolding apply_defaults apply_env
parse_config-queue unmarshal env content file c given decoded h =
    let same = parsed-finished unmarshal env content file c given decoded h in
    sym (ap (λ c. c.queue) same) ∙ finished-queue env file.queue
