-- ===== src/Api/Admins/Kept.antt =====
-- Every request below /api/v1/admin leaves an active super administrator.
use mathlib.Core.Path.{subst}
use axmi_pusher.Base.{
  ℕ, String, Bool, Option, List, [], ◌∷◌, true, some, none, inl, inr, ◌⊎◌, ◌≡◌, refl, sym, ◌≤◌,
  ◌==◌, ◌||◌, first, arith, Bool-cases, text_eq, nat_eq, string_eq,
}
use axmi_pusher.Models.{RowStatus, is_active, is_disabled}
use axmi_pusher.Accounts.{Account, Table, Crypto, AuthError}
use axmi_pusher.Accounts.Login.{login, login_totp}
use axmi_pusher.Accounts.Tokens.{parse_totp_pending_token}
use axmi_pusher.Api.{AuditLog}
use axmi_pusher.Api.Auth.{Context}
use axmi_pusher.Api.Account.{
  Logged, change_password_handler, update_profile_handler, change_email_handler, setup_totp_handler,
  confirm_totp_handler, disable_totp_handler,
}
use axmi_pusher.Api.Sessions.{login_admin, login_totp_admin, second_step_admin}
use axmi_pusher.Api.Admins.{
  create_admin_handler, set_admin_status_handler, reset_admin_password_handler,
}
use axmi_pusher.Api.Admins.Routes.{
  AdminRequest, sign_in, sign_in_totp, put_profile, put_password, put_email, start_totp,
  finish_totp, end_totp, post_admin, put_status, put_admin_password, RequestEnv, as_admin, as_super,
  serve_admin, serve_super, serve_if, serve,
}
use axmi_pusher.Api.Admins.Super.{
  is_super, supers, login_found-supers, login_totp_found-supers, update_profile-supers,
  change_email-supers, setup_totp-supers, change_password-supers, reset_admin_password-supers,
  create_admin-supers, confirm_totp-supers, disable_totp-supers, set_admin_status-supers,
}
use axmi_pusher.Api.Admins.Entered.{as_super-is_super}

module _ (crypto : Crypto) (env : RequestEnv) (o : Option Account) (rows : Table)
    (logs : List AuditLog) (action : String) where
  profile-supers :
      (nickname qq : String)
      → supers (update_profile_handler crypto env.account action o nickname qq (rows, logs)).0.0
        ≡ supers rows
  unfolding update_profile_handler
  profile-supers nickname qq = grind (arith, update_profile-supers)

  password-supers :
      (old new : String)
      → supers (change_password_handler crypto env.account action o old new (rows, logs)).0.0
        ≡ supers rows
  unfolding change_password_handler
  password-supers old new = grind (arith, change_password-supers)

  email-supers :
      (email : String)
      → supers (change_email_handler crypto env.account action o email (rows, logs)).0.0
        ≡ supers rows
  unfolding change_email_handler
  email-supers email = grind (arith, change_email-supers)

module _ (crypto : Crypto) (ttl : ℕ) (env : RequestEnv) (rows : Table) (logs : List AuditLog) where
  own-supers :
      (r : AdminRequest) (ctx : Context)
      → supers (serve_admin crypto ttl env r ctx (rows, logs)).0 ≡ supers rows
  unfolding serve_admin setup_totp_handler confirm_totp_handler disable_totp_handler
  own-supers (put_profile nickname qq) ctx =
      profile-supers crypto env ctx.admin rows logs "admin.update_profile" nickname qq
  own-supers (put_password old new) ctx =
      password-supers crypto env ctx.admin rows logs "admin.change_password" old new
  own-supers (put_email email) ctx =
      email-supers crypto env ctx.admin rows logs "admin.change_email" email
  own-supers start_totp ctx = grind (arith, setup_totp-supers)
  own-supers (finish_totp digits) ctx = grind (arith, confirm_totp-supers)
  own-supers (end_totp digits) ctx = grind (arith, disable_totp-supers)
  own-supers (sign_in email password) ctx = refl
  own-supers (sign_in_totp token digits) ctx = refl
  own-supers (post_admin id email password nickname) ctx = refl
  own-supers (put_status target status) ctx = refl
  own-supers (put_admin_password id password) ctx = refl

  own_if-supers :
      (r : AdminRequest) (o : Option Context)
      → supers (serve_if crypto ttl env (serve_admin crypto ttl env r) o (rows, logs)).0
        ≡ supers rows
  own_if-supers r none = refl
  own_if-supers r (some ctx) = own-supers r ctx

  create-supers :
      (o : Option Account) (id : ℕ) (email password nickname : String)
      → supers rows
        ≤ supers
            (create_admin_handler crypto env.account o id email password nickname (rows, logs)).0.0
  unfolding create_admin_handler
  create-supers o id email password nickname = grind (arith, create_admin-supers)

  reset-supers :
      (o : Option Account) (id : ℕ) (password : String)
      → supers (reset_admin_password_handler crypto env.account o id password (rows, logs)).0.0
        ≡ supers rows
  unfolding reset_admin_password_handler
  reset-supers o id password = grind (arith, reset_admin_password-supers)

  -- The handler that sets a state is given the row of an active super administrator.
  status-supers :
      (o : Option Account) (a : Account) (target : ℕ) (status : RowStatus)
      → o ≡ some a
      → first (λ r. r.id == a.id) rows ≡ some a
      → is_super a ≡ true
      → 1 ≤ supers rows
      → 1 ≤ supers (set_admin_status_handler crypto env.account o target status (rows, logs)).0.0
  unfolding set_admin_status_handler
  status-supers none a target status e read super left = cc
  status-supers (some b) a target status e read super left =
      let same : b ≡ a = ground arith in
      elim (Bool-cases (is_active status || is_disabled status)) [
        | inl bound ↦ ground (
          arith,
          set_admin_status-supers env.account.refusals b.id target rows status b
              (subst (λ c. first (λ r. r.id == c.id) rows ≡ some c) (sym same) read)
              (subst (λ c. is_super c ≡ true) (sym same) super) left bound,
        )
        | inr unbound ↦ rw unbound left
      ]

  super-supers :
      (r : AdminRequest) (o : Option Context)
      → as_super crypto ttl env rows ≡ o
      → 1 ≤ supers rows
      → 1 ≤ supers (serve_if crypto ttl env (serve_super crypto ttl env r) o (rows, logs)).0
  unfolding serve_super
  super-supers r none e left = left
  super-supers (post_admin id email password nickname) (some ctx) e left =
      omega (arith, create-supers ctx.admin id email password nickname, left)
  super-supers (put_admin_password id password) (some ctx) e left =
      omega (arith, reset-supers ctx.admin id password, left)
  super-supers (put_status target status) (some ctx) e left =
      let (row, super) = as_super-is_super crypto ttl env rows ctx e in
      status-supers ctx.admin row.row target status row.named row.read super left
  super-supers (put_profile nickname qq) (some ctx) e left = left
  super-supers (put_password old new) (some ctx) e left = left
  super-supers (put_email email) (some ctx) e left = left
  super-supers start_totp (some ctx) e left = left
  super-supers (finish_totp digits) (some ctx) e left = left
  super-supers (end_totp digits) (some ctx) e left = left
  super-supers (sign_in email password) (some ctx) e left = left
  super-supers (sign_in_totp token digits) (some ctx) e left = left

  login_admin-supers :
      (email secret : String)
      → supers (login_admin crypto ttl env.login email secret rows).0 ≡ supers rows
  unfolding login_admin login
  login_admin-supers email secret = grind (arith, login_found-supers)

  second_step_admin-supers :
      (digits : String) (r : AuthError ⊎ (ℕ × Bool))
      → supers (second_step_admin crypto ttl env.login digits rows r).0 ≡ supers rows
  unfolding second_step_admin login_totp
  second_step_admin-supers digits (inl e) = refl
  second_step_admin-supers digits (inr (id, is_admin)) = grind (arith, login_totp_found-supers)

  serve-supers :
      (r : AdminRequest) → 1 ≤ supers rows → 1 ≤ supers (serve crypto ttl env r (rows, logs)).0
  unfolding serve login_totp_admin
  serve-supers (sign_in email secret) left = omega (arith, login_admin-supers email secret, left)
  serve-supers (sign_in_totp token digits) left = omega (
    arith,
    second_step_admin-supers digits (parse_totp_pending_token crypto env.login.now token),
    left,
  )
  serve-supers (post_admin id email password nickname) left =
      super-supers (post_admin id email password nickname) _ refl left
  serve-supers (put_status target status) left = super-supers (put_status target status) _ refl left
  serve-supers (put_admin_password id password) left =
      super-supers (put_admin_password id password) _ refl left
  serve-supers (put_profile nickname qq) left =
      omega (arith, own_if-supers (put_profile nickname qq) (as_admin crypto ttl env rows), left)
  serve-supers (put_password old new) left =
      omega (arith, own_if-supers (put_password old new) (as_admin crypto ttl env rows), left)
  serve-supers (put_email email) left =
      omega (arith, own_if-supers (put_email email) (as_admin crypto ttl env rows), left)
  serve-supers start_totp left =
      omega (arith, own_if-supers start_totp (as_admin crypto ttl env rows), left)
  serve-supers (finish_totp digits) left =
      omega (arith, own_if-supers (finish_totp digits) (as_admin crypto ttl env rows), left)
  serve-supers (end_totp digits) left =
      omega (arith, own_if-supers (end_totp digits) (as_admin crypto ttl env rows), left)

module _ (crypto : Crypto) (ttl : ℕ) where
  -- The requests, one after another.
  unfoldable pub serve_all : List (RequestEnv × AdminRequest) → Logged → Logged
  serve_all [] s = s
  serve_all ((env, r) ∷ rs) s = serve_all rs (serve crypto ttl env r s)

  -- If there is an active super administrator, there still is one after any sequence of requests to
  -- the routes of the administrators, each served as a whole: logins, changes of the own account,
  -- new administrators, new passwords, and states set by active super administrators.
  pub super_remains :
      (rs : List (RequestEnv × AdminRequest)) (rows : Table) (logs : List AuditLog)
      → 1 ≤ supers rows
      → 1 ≤ supers (serve_all rs (rows, logs)).0
  unfolding serve_all
  super_remains [] rows logs left = left
  super_remains ((env, r) ∷ rs) rows logs left =
      let s = serve crypto ttl env r (rows, logs) in
      super_remains rs s.0 s.1 (serve-supers crypto ttl env rows logs r left)
