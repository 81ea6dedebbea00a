-- ===== src/Tests/Site.antt =====
-- The inboxes, the configuration and the path of the administration at concrete inputs.
use axmi_pusher.Base.{
  true, String, Text, Option, [], ◌∷◌, false, none, some, ◌≡◌, refl, ◌==◌, if◌then◌else◌, string_eq,
  text_eq, text_beq,
}
use axmi_pusher.Base.Int.{pos}
use axmi_pusher.Base.Keys.{codes}
use axmi_pusher.Compat.{trim_space, trim_left}
use axmi_pusher.Models.{TaskMessage}
use axmi_pusher.Channel.Inapp.{inapp_send, targets_of, as_target, put_all, put_each}
use axmi_pusher.Api.{ok}
use axmi_pusher.Api.Inbox.Delivered.{Delivered, inapp_send-Delivered}
use axmi_pusher.Api.AdminPath.{
  has_route, register_admin_spa, keep_path, AdminSite, RotateEnv, rotate_admin_path, new_path,
  put_path, random_path_of,
}
use axmi_pusher.Api.AdminPath.Rotated.{IsAt, rotate_admin_path-IsAt}
use axmi_pusher.Config.{Config, default_config}
use axmi_pusher.Config.AdminPath.{generate_admin_path, trim_both, drop_slashes}
use axmi_pusher.Config.Loading.{read, load, parse_config, finished}
use axmi_pusher.Config.Usable.{IsUsable, load-IsUsable}
use axmi_pusher.Config.Priority.{chosen_queue, parse_config-queue}
use axmi_pusher.Api.Users.Kept.{create, user_call, user_call-IsKept}
use axmi_pusher.Api.Users.Written.{IsKept}
use axmi_pusher.Tests.Toy.{admins, toy, account_env, admins-Unique}

-- A message of the first user for the second one.
abbrev to_second : TaskMessage
to_second = record {
  message_id = 1;
  tenant_id = 1;
  request_id = "r";
  channel = "inapp";
  title = codes "hello";
  content = codes "text";
  recipient = "second@x.org";
  priority = "normal";
  retry_count = 0;
  created_at = 5;
}

to_second_sent : (inapp_send (λ n. false) 6 to_second false 9 admins []).1 ≡ none
unfolding inapp_send targets_of as_target put_all put_each
to_second_sent = refl

inapp_send-Delivered_example :
    Delivered to_second admins [] (inapp_send (λ n. false) 6 to_second false 9 admins []).0
inapp_send-Delivered_example =
    inapp_send-Delivered (λ n. false) 6 9 to_second false admins [] to_second_sent

-- A file with a batch of 7, and an environment with one of 25 and a negative concurrency.
abbrev in_file : Config
in_file = record default_config { queue = record default_config.queue { batch_size = pos 7 } }

abbrev decode : Config → Text → Option Config
decode c content = if content == codes "batch_size: 7" then some in_file else none

abbrev environment : String → String
environment v =
    if v == "MP_QUEUE_BATCH_SIZE" then "25" else (if v == "MP_QUEUE_CONCURRENCY" then "-4" else "")

load-IsUsable_example : IsUsable (finished decode environment in_file)
unfolding load parse_config text_beq
load-IsUsable_example =
    load-IsUsable decode environment (read (codes "batch_size: 7"))
      (finished decode environment in_file) refl

parse_config-queue_example :
    (finished decode environment in_file).queue ≡ chosen_queue environment in_file.queue
unfolding parse_config text_beq
parse_config-queue_example =
    parse_config-queue decode environment (codes "batch_size: 7") in_file
      (finished decode environment in_file) refl refl refl

-- A rotation to a random path, with bytes that pick the first letters.
abbrev drawn : RotateEnv
drawn = record {
  bytes = some (0 ∷ 1 ∷ 2 ∷ 3 ∷ 4 ∷ 5 ∷ 6 ∷ 7 ∷ 62 ∷ 63 ∷ 64 ∷ 65 ∷ 66 ∷ 67 ∷ 68 ∷ 255 ∷ []);
  has_router = true;
  has_dist = true;
  rewrite_failed = false;
  save_failed = false;
  audit_refused = false;
  actor_id = 1;
  actor_email = "root@x.org";
}

abbrev old_site : AdminSite
old_site = record {
  random_path = codes "oldpath1";
  saved_path = codes "oldpath1";
  routes = codes "oldpath1" ∷ [];
  logs = [];
}

path_rotated : (rotate_admin_path drawn [] old_site).1 ≡ ok (codes "abcdefghabcdefgh")
unfolding rotate_admin_path new_path keep_path register_admin_spa has_route put_path random_path_of
    generate_admin_path trim_space trim_left text_beq trim_both drop_slashes
path_rotated = refl

rotate_admin_path-IsAt_example :
    IsAt drawn (codes "abcdefghabcdefgh") old_site (rotate_admin_path drawn [] old_site).0
rotate_admin_path-IsAt_example =
    rotate_admin_path-IsAt drawn [] (codes "abcdefghabcdefgh") old_site refl path_rotated

user_call-IsKept_example :
    IsKept admins
      (user_call toy account_env none (create 3 " third@x.org" "a long password" "") (admins, [])).0
user_call-IsKept_example =
    user_call-IsKept toy account_env none (create 3 " third@x.org" "a long password" "") admins []
      refl admins-Unique
