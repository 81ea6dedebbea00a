-- ===== src/Tests/Sessions.antt =====
-- The sessions of administrators at concrete inputs.
use axmi_pusher.Base.Keys.{codes}
use axmi_pusher.Base.{
  ℕ, Text, List, [], ◌∷◌, ◌++◌, true, false, arith, nat_eq, string_eq, text_eq, ◌≤◌,
}
use axmi_pusher.Models.{disabled}
use axmi_pusher.Base.{◌*◌}
use axmi_pusher.Accounts.Login.{login, login_found, login_totp, login_totp_found, note_login}
use axmi_pusher.Accounts.Tokens.{
  create_totp_pending_token, pending_claims, parse_totp_pending_token, parse_kind, of_kind,
  second_step_of, create_admin_token, admin_claims,
}
use axmi_pusher.Api.Admins.Routes.{RequestEnv, AdminRequest, sign_in, put_status, start_totp}
use axmi_pusher.Api.Admins.Super.{supers}
use axmi_pusher.Api.Admins.Kept.{serve_all, super_remains}
use axmi_pusher.Api.Sessions.{
  LoginEnv, login_admin, granted_admin, login_totp_admin, second_step_admin, granted_admin_session,
}
use axmi_pusher.Api.Sessions.Factors.{first_step, second_step, World, handled}
use axmi_pusher.Api.Sessions.Sequences.{logged}
use axmi_pusher.Tests.Toy.{toy, admins, account_env}

-- A login in two steps.
abbrev at_second : ℕ → LoginEnv
at_second n = record {
  find_refused = false;
  write_refused = false;
  now = n * 1000000000;
  signing = n * 1000000000;
  ip = "::1";
}

abbrev started : World
started = record { users = []; admins = admins; issued = []; shown = [] }

abbrev pending_text : Text
pending_text = 1 ∷ 0 ∷ 2 ∷ 1 ∷ 301000000000 ∷ 1000000000 ∷ []

abbrev session_text : Text
session_text = 1 ∷ 0 ∷ 1 ∷ 0 ∷ 62000000000 ∷ 2000000000 ∷ []

abbrev halfway : World
halfway =
    logged toy 60000000000 (at_second 1) (first_step true "root@x.org" "a long password") started

abbrev inside : World
inside = logged toy 60000000000 (at_second 2) (second_step true pending_text "271828") halfway

abbrev header : Text
header = codes "Bearer " ++ session_text

abbrev asking : RequestEnv
asking = record {
  login = at_second 3;
  account = account_env;
  header = header;
  read_refused = false;
}

abbrev requests : List (RequestEnv × AdminRequest)
requests =
    (asking, sign_in "second@x.org" "guess")
    ∷ (asking, put_status 2 disabled)
    ∷ (asking, put_status 1 disabled)
    ∷ (asking, start_totp)
    ∷ []

two_supers : 1 ≤ supers inside.admins
unfolding logged handled login_admin granted_admin login login_found create_totp_pending_token
    pending_claims login_totp_admin second_step_admin granted_admin_session login_totp
    login_totp_found parse_totp_pending_token parse_kind of_kind second_step_of create_admin_token
    admin_claims note_login
two_supers = omega arith

super_remains_example : 1 ≤ supers (serve_all toy 60000000000 requests (inside.admins, [])).0
super_remains_example = super_remains toy 60000000000 requests inside.admins [] two_supers
