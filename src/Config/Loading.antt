-- ===== src/Config/Loading.antt =====
-- The loading of the configuration: the file, then the environment, then the default values. The
-- decoding of YAML is a parameter, which decodes into a configuration; os.Getenv is a function,
-- empty where a variable is not set.
use axmi_pusher.Base.{
  String, Text, Bool, Option, [], ◌++◌, true, none, some, if◌then◌else◌, ◌==◌, ◌&&◌, ◌||◌,
  string_eq, text_eq, zero, suc,
}
use axmi_pusher.Base.Int.{ℤ, pos, negsuc}
use axmi_pusher.Base.Keys.{codes}
use axmi_pusher.Config.{
  Config, DatabaseConfig, QueueConfig, AuthConfig, RedisConfig, WebConfig, default_config,
  decimal_int,
}
use axmi_pusher.Config.Numbers.{atoi, scan_int}

-- if v := os.Getenv(…); v != "" { … = v }
abbrev pub env_text : String → String → String
env_text v old = if v == "" then old else v

-- Sscanf writes nothing where it fails.
abbrev pub env_int : String → ℤ → ℤ
env_int v old = if v == "" then old else elim (scan_int (codes v)) [ none ↦ old | some n ↦ n ]

-- Only a positive number overrides the old one.
abbrev pub positive_of : Option ℤ → ℤ → ℤ
positive_of none old = old
positive_of (some (pos zero)) old = old
positive_of (some (pos (suc n))) old = pos (suc n)
positive_of (some (negsuc n)) old = old

abbrev pub env_positive : String → ℤ → ℤ
env_positive v old = if v == "" then old else positive_of (atoi (codes v)) old

abbrev pub env_fallback : String → Option Bool → Option Bool
env_fallback v old = if v == "" then old else some (v == "1" || v == "true")

module _ (env : String → String) where
  abbrev pub queue_env : QueueConfig → QueueConfig
  queue_env q = record {
    poll_interval = env_positive (env "MP_QUEUE_POLL_INTERVAL") q.poll_interval;
    batch_size = env_positive (env "MP_QUEUE_BATCH_SIZE") q.batch_size;
    claim_timeout = env_positive (env "MP_QUEUE_CLAIM_TIMEOUT") q.claim_timeout;
    max_claim_attempts = env_positive (env "MP_QUEUE_MAX_CLAIM_ATTEMPTS") q.max_claim_attempts;
    concurrency = env_positive (env "MP_QUEUE_CONCURRENCY") q.concurrency;
  }

  abbrev pub database_env : DatabaseConfig → DatabaseConfig
  database_env d = record d {
    type = env_text (env "MP_DB_TYPE") d.type;
    host = env_text (env "MP_DB_HOST") d.host;
    port = env_int (env "MP_DB_PORT") d.port;
    user = env_text (env "MP_DB_USER") d.user;
    password = env_text (env "MP_DB_PASSWORD") d.password;
    name = env_text (env "MP_DB_NAME") d.name;
    sqlite_path = env_text (env "MP_SQLITE_PATH") d.sqlite_path;
  }

  abbrev pub redis_env : RedisConfig → RedisConfig
  redis_env r = record r {
    addr = env_text (env "MP_REDIS_ADDR") r.addr;
    password = env_text (env "MP_REDIS_PASSWORD") r.password;
    db = env_int (env "MP_REDIS_DB") r.db;
    fallback_in_memory = env_fallback (env "MP_REDIS_FALLBACK") r.fallback_in_memory;
  }

  abbrev pub web_env : WebConfig → WebConfig
  web_env w = record {
    user_dist = env_text (env "MP_USER_DIST") w.user_dist;
    admin_dist = env_text (env "MP_ADMIN_DIST") w.admin_dist;
    user_port = env_int (env "MP_USER_PORT") w.user_port;
    admin_port = env_int (env "MP_ADMIN_PORT") w.admin_port;
    api_target = if env "MP_API_TARGET" == "" then w.api_target else codes (env "MP_API_TARGET");
  }

  -- applyEnv
  unfoldable pub apply_env : Config → Config
  apply_env c = record c {
    database = database_env c.database;
    queue = queue_env c.queue;
    auth = record c.auth { jwt_secret = env_text (env "MP_JWT_SECRET") c.auth.jwt_secret };
    admin = record { random_path = env_text (env "MP_ADMIN_PATH") c.admin.random_path };
    redis = redis_env c.redis;
    web = web_env c.web;
    server = record c.server { port = env_int (env "MP_PORT") c.server.port };
  }

abbrev pub text_or : String → String → String
text_or fallback v = if v == "" then fallback else v

-- if c.X <= 0 { c.X = d.X }
abbrev pub int_or : ℤ → ℤ → ℤ
int_or fallback (pos zero) = fallback
int_or fallback (pos (suc n)) = pos (suc n)
int_or fallback (negsuc n) = fallback

-- if c.Server.Port == 0 { … }
abbrev pub port_or : ℤ → ℤ → ℤ
port_or fallback (pos zero) = fallback
port_or fallback (pos (suc n)) = pos (suc n)
port_or fallback (negsuc n) = negsuc n

abbrev pub fallback_or : Bool → Option Bool → Option Bool
fallback_or b none = some b
fallback_or b (some v) = some v

abbrev pub database_defaults : DatabaseConfig → DatabaseConfig
database_defaults d =
    let type = text_or default_config.database.type d.type in
    record d {
      type = type;
      sqlite_path =
          if type == "sqlite" && d.sqlite_path == ""
          then default_config.database.sqlite_path
          else d.sqlite_path;
    }

abbrev pub queue_defaults : QueueConfig → QueueConfig
queue_defaults q = record {
  poll_interval = int_or default_config.queue.poll_interval q.poll_interval;
  batch_size = int_or default_config.queue.batch_size q.batch_size;
  claim_timeout = int_or default_config.queue.claim_timeout q.claim_timeout;
  max_claim_attempts = int_or default_config.queue.max_claim_attempts q.max_claim_attempts;
  concurrency = int_or default_config.queue.concurrency q.concurrency;
}

abbrev pub auth_defaults : AuthConfig → AuthConfig
auth_defaults a = record a {
  token_ttl = int_or default_config.auth.token_ttl a.token_ttl;
  api_key_prefix = text_or default_config.auth.api_key_prefix a.api_key_prefix;
  bcrypt_cost = int_or default_config.auth.bcrypt_cost a.bcrypt_cost;
}

abbrev pub web_defaults : ℤ → WebConfig → WebConfig
web_defaults port w = record w {
  user_port = int_or (pos 19876) w.user_port;
  admin_port = int_or (pos 19877) w.admin_port;
  api_target =
      if w.api_target == [] then codes "http://127.0.0.1:" ++ decimal_int port else w.api_target;
}

-- applyDefaults
unfoldable pub apply_defaults : Config → Config
apply_defaults c =
    let port = port_or default_config.server.port c.server.port in
    record c {
      app = record c.app {
        name = text_or default_config.app.name c.app.name;
        data_dir = text_or default_config.app.data_dir c.app.data_dir;
      };
      server = record c.server { port = port };
      database = database_defaults c.database;
      queue = queue_defaults c.queue;
      auth = auth_defaults c.auth;
      rate_limit = record c.rate_limit {
        per_minute = int_or default_config.rate_limit.per_minute c.rate_limit.per_minute;
        per_target_per_hour =
            int_or default_config.rate_limit.per_target_per_hour c.rate_limit.per_target_per_hour;
      };
      retention = record {
        message_days = int_or default_config.retention.message_days c.retention.message_days;
      };
      redis = record c.redis {
        pool_size = int_or default_config.redis.pool_size c.redis.pool_size;
        fallback_in_memory = fallback_or true c.redis.fallback_in_memory;
      };
      web = web_defaults port c.web;
    }

-- What os.ReadFile says of the file: that there is none, that it cannot be read, or its text.
pub data FileRead : Type 0 where
  absent unreadable : FileRead
  read : Text → FileRead

module _ (unmarshal : Config → Text → Option Config) (env : String → String) where
  abbrev pub finished : Config → Config
  finished c = apply_defaults (apply_env env c)

  -- ParseConfig
  unfoldable pub parse_config : Text → Option Config
  parse_config content =
      if content == []
      then some (finished default_config)
      else elim (unmarshal default_config content) [ none ↦ none | some c ↦ some (finished c) ]

  -- Load
  unfoldable pub load : FileRead → Option Config
  unfolding parse_config
  load absent = parse_config []
  load unreadable = none
  load (read content) = parse_config content
