-- ===== src/Config.antt =====
-- internal/config/config.go: the configuration and its default values. A text that the program only
-- passes on is a String.
pub mod Numbers
pub mod Loading
pub mod Usable
pub mod Priority
pub mod AdminPath
use axmi_pusher.Base.{
  ℕ, String, Text, Bool, Option, [], ◌++◌, none, some, if◌then◌else◌, true, false, ◌==◌, ◌+◌, ◌&&◌,
  ◌∷◌, string_eq, text_eq, suc, zero,
}
use axmi_pusher.Base.Int.{ℤ, pos, negsuc}
use axmi_pusher.Base.Keys.{codes, decimal}

pub record AppConfig : Type 0 where
  pub name : String
  pub data_dir : String
  pub base_url : String
  pub user_web_url : String
  pub admin_web_url : String

pub record ServerConfig : Type 0 where
  pub host : String
  pub port : ℤ

pub record DatabaseConfig : Type 0 where
  pub type : String
  pub host : String
  pub port : ℤ
  pub user : String
  pub password : String
  pub name : String
  pub ssl_mode : String
  pub sqlite_path : String

pub record QueueConfig : Type 0 where
  pub poll_interval : ℤ
  pub batch_size : ℤ
  pub claim_timeout : ℤ
  pub max_claim_attempts : ℤ
  pub concurrency : ℤ

pub record AuthConfig : Type 0 where
  pub jwt_secret : String
  pub token_ttl : ℤ
  pub api_key_prefix : String
  pub bcrypt_cost : ℤ

pub record AdminConfig : Type 0 where
  pub random_path : String

pub record RateLimitConfig : Type 0 where
  pub per_minute : ℤ
  pub per_target_per_hour : ℤ
  pub enabled : Bool

pub record RetentionConfig : Type 0 where
  pub message_days : ℤ

pub record EpayConfig : Type 0 where
  pub gateway : String
  pub pid : String
  pub key : String

pub record RedisConfig : Type 0 where
  pub addr : String
  pub password : String
  pub db : ℤ
  pub pool_size : ℤ
  pub fallback_in_memory : Option Bool

pub record WebConfig : Type 0 where
  pub user_dist : String
  pub admin_dist : String
  pub user_port : ℤ
  pub admin_port : ℤ
  pub api_target : Text

pub record Config : Type 0 where
  pub app : AppConfig
  pub database : DatabaseConfig
  pub queue : QueueConfig
  pub auth : AuthConfig
  pub admin : AdminConfig
  pub rate_limit : RateLimitConfig
  pub retention : RetentionConfig
  pub epay : EpayConfig
  pub server : ServerConfig
  pub redis : RedisConfig
  pub web : WebConfig

-- defaultConfig
abbrev pub default_config : Config
default_config = record {
  app = record {
    name = "axmipusher";
    data_dir = "./data";
    base_url = "";
    user_web_url = "";
    admin_web_url = "";
  };
  database = record {
    type = "sqlite";
    host = "";
    port = pos 0;
    user = "";
    password = "";
    name = "";
    ssl_mode = "disable";
    sqlite_path = "./data/axmipusher.db";
  };
  queue = record {
    poll_interval = pos 500;
    batch_size = pos 100;
    claim_timeout = pos 300;
    max_claim_attempts = pos 5;
    concurrency = pos 4;
  };
  auth = record {
    jwt_secret = "";
    token_ttl = pos 86400000000000;
    api_key_prefix = "mp_";
    bcrypt_cost = pos 10;
  };
  admin = record { random_path = "" };
  rate_limit = record { per_minute = pos 600; per_target_per_hour = pos 20; enabled = true };
  retention = record { message_days = pos 90 };
  epay = record { gateway = ""; pid = ""; key = "" };
  server = record { host = "0.0.0.0"; port = pos 8080 };
  redis = record {
    addr = "";
    password = "";
    db = pos 0;
    pool_size = pos 20;
    fallback_in_memory = none;
  };
  web = record {
    user_dist = "";
    admin_dist = "";
    user_port = pos 0;
    admin_port = pos 0;
    api_target = [];
  };
}

-- The `%d` of an integer.
unfoldable pub decimal_int : ℤ → Text
decimal_int (pos n) = decimal n
decimal_int (negsuc n) = b'-' ∷ decimal (n + 1)

-- DSN: none for a database of another type. MySQL has a port of its own where none is set.
unfoldable pub dsn : DatabaseConfig → Option Text
unfolding decimal_int
dsn d =
    if d.type == "sqlite"
    then some (codes d.sqlite_path)
    else (if d.type == "postgres"
        then some (
            codes "host="
            ++ (codes d.host
                ++ (codes " port="
                    ++ (decimal_int d.port
                        ++ (codes " user="
                            ++ (codes d.user
                                ++ (codes " password="
                                    ++ (codes d.password
                                        ++ (codes " dbname="
                                            ++ (codes d.name
                                                ++ (codes " sslmode=" ++ codes d.ssl_mode)))))))))))
        else (if d.type == "mysql"
            then some (
                codes d.user
                ++ (codes ":"
                    ++ (codes d.password
                        ++ (codes "@tcp("
                            ++ (codes d.host
                                ++ (codes ":"
                                    ++ (decimal_int (elim d.port [
                                      | pos n ↦ (elim n [ zero ↦ pos 3306 | suc k ↦ pos (suc k) ])
                                      | negsuc n ↦ pos 3306
                                    ])
                                        ++ (codes ")/"
                                            ++ (codes d.name
                                                ++ codes
                                                    "?charset=utf8mb4&parseTime=True&loc=Local")))))))))
            else none))
