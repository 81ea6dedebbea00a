-- ===== src/Api/Admins/Routes.antt =====
-- internal/api/router.go: the routes below /api/v1/admin that write to the table of administrators,
-- each with the middleware before its handler.
use axmi_pusher.Base.{ℕ, String, Text, Bool, Option, [], ◌∷◌, some, none}
use axmi_pusher.Models.{RowStatus}
use axmi_pusher.Accounts.{Table, Crypto, admin_role_super}
use axmi_pusher.Api.{Answer, ok}
use axmi_pusher.Api.Auth.{Context, empty_context, require_admin_auth, require_admin_role}
use axmi_pusher.Api.Account.{
  AccountEnv, Logged, change_password_handler, update_profile_handler, change_email_handler,
  setup_totp_handler, confirm_totp_handler, disable_totp_handler,
}
use axmi_pusher.Api.Sessions.{LoginEnv, login_admin, login_totp_admin}
use axmi_pusher.Api.Admins.{
  create_admin_handler, set_admin_status_handler, reset_admin_password_handler,
}

-- Requests without a token, requests of any administrator, and requests of a super administrator.
pub data AdminRequest : Type 0 where
  sign_in : String → String → AdminRequest
  sign_in_totp : Text → String → AdminRequest
  put_profile put_password : String → String → AdminRequest
  put_email : String → AdminRequest
  start_totp : AdminRequest
  finish_totp end_totp : String → AdminRequest
  post_admin : ℕ → String → String → String → AdminRequest
  put_status : ℕ → RowStatus → AdminRequest
  put_admin_password : ℕ → String → AdminRequest

-- What one request meets, and its header; `read_refused` is the reading of the administrator by
-- the middleware.
pub record RequestEnv : Type 0 where
  pub login : LoginEnv
  pub account : AccountEnv
  pub header : Text
  pub read_refused : Bool

-- The context that a chain of middleware gives the handler, if it lets the request through.
abbrev pub context_of : Answer Context → Option Context
context_of (ok ctx) = some ctx
context_of _ = none

abbrev pub and_then : Option Context → (Context → Answer Context) → Option Context
and_then none f = none
and_then (some ctx) f = context_of (f ctx)

module _ (crypto : Crypto) (ttl : ℕ) (env : RequestEnv) where
  -- RequireAdminAuth
  unfoldable pub as_admin : Table → Option Context
  as_admin admins = context_of (
      require_admin_auth crypto env.account.now env.read_refused env.read_refused env.header admins
        empty_context)

  -- RequireAdminAuth and RequireAdminRole(super_admin)
  unfoldable pub as_super : Table → Option Context
  unfolding as_admin
  as_super admins = and_then (as_admin admins) (require_admin_role (admin_role_super ∷ []))

  unfoldable pub serve_admin : AdminRequest → Context → Logged → Logged
  serve_admin (put_profile nickname qq) ctx s =
      (update_profile_handler crypto env.account "admin.update_profile" ctx.admin nickname qq s).0
  serve_admin (put_password old new) ctx s =
      (change_password_handler crypto env.account "admin.change_password" ctx.admin old new s).0
  serve_admin (put_email email) ctx s =
      (change_email_handler crypto env.account "admin.change_email" ctx.admin email s).0
  serve_admin start_totp ctx (admins, logs) =
      ((setup_totp_handler crypto env.account ctx.admin admins).0, logs)
  serve_admin (finish_totp digits) ctx (admins, logs) =
      ((confirm_totp_handler crypto env.account ctx.admin digits admins).0, logs)
  serve_admin (end_totp digits) ctx (admins, logs) =
      ((disable_totp_handler crypto env.account ctx.admin digits admins).0, logs)
  serve_admin _ ctx s = s

  unfoldable pub serve_super : AdminRequest → Context → Logged → Logged
  serve_super (post_admin id email password nickname) ctx s =
      (create_admin_handler crypto env.account ctx.admin id email password nickname s).0
  serve_super (put_status target status) ctx s =
      (set_admin_status_handler crypto env.account ctx.admin target status s).0
  serve_super (put_admin_password id password) ctx s =
      (reset_admin_password_handler crypto env.account ctx.admin id password s).0
  serve_super _ ctx s = s

  abbrev pub serve_if : (Context → Logged → Logged) → Option Context → Logged → Logged
  serve_if f none s = s
  serve_if f (some ctx) s = f ctx s

  -- The table and the log after a request.
  unfoldable pub serve : AdminRequest → Logged → Logged
  unfolding serve_admin serve_super as_super
  serve (sign_in email password) (admins, logs) =
      ((login_admin crypto ttl env.login email password admins).0, logs)
  serve (sign_in_totp token digits) (admins, logs) =
      ((login_totp_admin crypto ttl env.login token digits admins).0, logs)
  serve (post_admin id email password nickname) (admins, logs) =
      serve_if (serve_super (post_admin id email password nickname)) (as_super admins)
        (admins, logs)
  serve (put_status target status) (admins, logs) =
      serve_if (serve_super (put_status target status)) (as_super admins) (admins, logs)
  serve (put_admin_password id password) (admins, logs) =
      serve_if (serve_super (put_admin_password id password)) (as_super admins) (admins, logs)
  serve r (admins, logs) = serve_if (serve_admin r) (as_admin admins) (admins, logs)
