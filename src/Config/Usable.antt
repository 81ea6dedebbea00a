-- ===== src/Config/Usable.antt =====
-- What a configuration that was loaded is good for.
use mathlib.Core.Path.{subst}
use axmi_pusher.Base.{
  text_beq, inl, inr, String, Text, Bool, Option, [], ◌++◌, true, false, none, some, ◌≡◌, ◌≢◌, refl,
  arith, ◌==◌, if◌then◌else◌, string_eq, text_eq, zero, suc, Bool-cases, ◌&&◌,
}
use axmi_pusher.Base.Int.{ℤ, pos, negsuc}
use axmi_pusher.Base.Keys.{codes}
use axmi_pusher.Config.{Config, default_config, decimal_int}
use axmi_pusher.Config.Loading.{
  apply_defaults, apply_env, parse_config, finished, int_or, port_or, text_or, fallback_or,
  FileRead, absent, unreadable, read, load,
}

abbrev pub is_positive : ℤ → Bool
is_positive (pos zero) = false
is_positive (pos (suc n)) = true
is_positive (negsuc n) = false

abbrev pub IsPositive : ℤ → Type 0
IsPositive n = is_positive n ≡ true

-- Every interval, size and limit is positive, and no text that names something is empty.
pub record IsUsable (c : Config) : Type 0 where
  pub poll_interval : IsPositive c.queue.poll_interval
  pub batch_size : IsPositive c.queue.batch_size
  pub claim_timeout : IsPositive c.queue.claim_timeout
  pub max_claim_attempts : IsPositive c.queue.max_claim_attempts
  pub concurrency : IsPositive c.queue.concurrency
  pub token_ttl : IsPositive c.auth.token_ttl
  pub bcrypt_cost : IsPositive c.auth.bcrypt_cost
  pub api_key_prefix : (c.auth.api_key_prefix == "") ≡ false
  pub per_minute : IsPositive c.rate_limit.per_minute
  pub per_target_per_hour : IsPositive c.rate_limit.per_target_per_hour
  pub message_days : IsPositive c.retention.message_days
  pub pool_size : IsPositive c.redis.pool_size
  pub has_fallback : c.redis.fallback_in_memory ≢ none
  pub port : c.server.port ≢ pos 0
  pub user_port : IsPositive c.web.user_port
  pub admin_port : IsPositive c.web.admin_port
  pub api_target : (c.web.api_target == []) ≡ false
  pub name : (c.app.name == "") ≡ false
  pub data_dir : (c.app.data_dir == "") ≡ false
  pub type : (c.database.type == "") ≡ false
  pub sqlite_path : (c.database.type == "sqlite" && c.database.sqlite_path == "") ≡ false

int_or-IsPositive : (d n : ℤ) → IsPositive d → IsPositive (int_or d n)
int_or-IsPositive d (pos zero) h = h
int_or-IsPositive d (pos (suc n)) h = refl
int_or-IsPositive d (negsuc n) h = h

port_or-ne : (n : ℤ) → port_or (pos 8080) n ≢ pos 0
port_or-ne (pos zero) = λ e. cc
port_or-ne (pos (suc n)) = λ e. cc
port_or-ne (negsuc n) = λ e. cc

text_or-ne : (d s : String) → (d == "") ≡ false → (text_or d s == "") ≡ false
text_or-ne d s h = ground arith

fallback_or-ne : (o : Option Bool) → fallback_or true o ≢ none
fallback_or-ne none = λ e. cc
fallback_or-ne (some b) = λ e. cc

api_target-ne :
    (t : Text) (port : ℤ)
    → ((if t == [] then codes "http://127.0.0.1:" ++ decimal_int port else t) == []) ≡ false
unfolding text_beq
api_target-ne t port = elim (Bool-cases (t == [])) [
  | inl missing ↦ rw missing refl
  | inr given ↦ rw given given
]

sqlite_path-ne :
    (type path : String)
    → (type == "sqlite"
        && (if type == "sqlite" && path == "" then "./data/axmipusher.db" else path) == "")
      ≡ false
sqlite_path-ne type path = elim (Bool-cases (type == "sqlite")) [
  | inl file ↦ elim (Bool-cases (path == "")) [
    | inl missing ↦ rw (file, missing) refl
    | inr given ↦ rw (file, given) given
  ]
  | inr server ↦ rw server refl
]

apply_defaults-IsUsable : (c : Config) → IsUsable (apply_defaults c)
unfolding apply_defaults
apply_defaults-IsUsable c = record {
  poll_interval = int_or-IsPositive _ c.queue.poll_interval refl;
  batch_size = int_or-IsPositive _ c.queue.batch_size refl;
  claim_timeout = int_or-IsPositive _ c.queue.claim_timeout refl;
  max_claim_attempts = int_or-IsPositive _ c.queue.max_claim_attempts refl;
  concurrency = int_or-IsPositive _ c.queue.concurrency refl;
  token_ttl = int_or-IsPositive _ c.auth.token_ttl refl;
  bcrypt_cost = int_or-IsPositive _ c.auth.bcrypt_cost refl;
  api_key_prefix = text_or-ne _ c.auth.api_key_prefix refl;
  per_minute = int_or-IsPositive _ c.rate_limit.per_minute refl;
  per_target_per_hour = int_or-IsPositive _ c.rate_limit.per_target_per_hour refl;
  message_days = int_or-IsPositive _ c.retention.message_days refl;
  pool_size = int_or-IsPositive _ c.redis.pool_size refl;
  has_fallback = fallback_or-ne c.redis.fallback_in_memory;
  port = port_or-ne c.server.port;
  user_port = int_or-IsPositive _ c.web.user_port refl;
  admin_port = int_or-IsPositive _ c.web.admin_port refl;
  api_target = api_target-ne c.web.api_target _;
  name = text_or-ne _ c.app.name refl;
  data_dir = text_or-ne _ c.app.data_dir refl;
  type = text_or-ne _ c.database.type refl;
  sqlite_path = sqlite_path-ne (text_or "sqlite" c.database.type) c.database.sqlite_path;
}

module _ (unmarshal : Config → Text → Option Config) (env : String → String) where
  decoded-IsUsable :
      (o : Option Config) (c : Config)
      → elim o [ none ↦ none | some d ↦ some (finished unmarshal env d) ] ≡ some c
      → IsUsable c
  decoded-IsUsable none c h = cc
  decoded-IsUsable (some d) c h =
      let same : finished unmarshal env d ≡ c = cc in
      subst IsUsable same (apply_defaults-IsUsable (apply_env env d))

  parsed-IsUsable :
      (content : Text) (c : Config) → parse_config unmarshal env content ≡ some c → IsUsable c
  unfolding parse_config
  parsed-IsUsable content c h = elim (Bool-cases (content == [])) [
    | inl missing ↦ decoded-IsUsable (some default_config) c (rw missing at h)
    | inr given ↦ decoded-IsUsable (unmarshal default_config content) c (rw given at h)
  ]

-- Whatever the file says and whatever the environment holds, a configuration that Load returns can
-- be used: every interval, size and limit is positive, the port of the server is not 0, and no text
-- that must name something is empty.
pub load-IsUsable :
    (unmarshal : Config → Text → Option Config) (env : String → String) (file : FileRead)
    (c : Config)
    → load unmarshal env file ≡ some c
    → IsUsable c
unfolding load
load-IsUsable unmarshal env absent c h = parsed-IsUsable unmarshal env [] c h
load-IsUsable unmarshal env unreadable c h = cc
load-IsUsable unmarshal env (read content) c h = parsed-IsUsable unmarshal env content c h
