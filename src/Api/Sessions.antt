-- ===== src/Api/Sessions.antt =====
-- internal/api/handler/auth.go and admin_auth.go: Login, LoginTotp, AdminLogin, AdminLoginTotp.
pub mod Checked
pub mod Factors
pub mod Steps
pub mod SignUp
pub mod Sequences
use axmi_pusher.Base.{
  ◌⊎◌, Text, ℕ, String, Bool, Option, true, false, some, none, inl, inr, if◌then◌else◌, not,
}
use axmi_pusher.Accounts.{AuthError, Account, Table, Crypto}
use axmi_pusher.Accounts.Login.{login, login_totp}
use axmi_pusher.Accounts.Tokens.{
  create_token, create_admin_token, create_totp_pending_token, parse_totp_pending_token,
}
use axmi_pusher.Api.{Answer, ok, unauthorized, server_error}

-- What a login answers: a token that opens the API, or one for the second step.
pub data Grant : Type 0 where
  session : Text → Account → Grant
  need_totp : Text → Grant

-- The times that one request reads: at the check of the account, and when its token is made.
pub record LoginEnv : Type 0 where
  pub find_refused : Bool
  pub write_refused : Bool
  pub now : ℕ
  pub signing : ℕ
  pub ip : String

abbrev pub signed_session : Account → Option Text → Answer Grant
signed_session a none = server_error
signed_session a (some t) = ok (session t a)

abbrev pub signed_pending : Option Text → Answer Grant
signed_pending none = server_error
signed_pending (some t) = ok (need_totp t)

module _ (crypto : Crypto) (ttl : ℕ) (env : LoginEnv) where
  unfoldable pub granted_user : AuthError ⊎ Account → Answer Grant
  granted_user (inl e) = unauthorized
  granted_user (inr u) =
      if u.totp_enabled
      then signed_pending (create_totp_pending_token crypto env.signing u.id false)
      else signed_session u (create_token crypto env.signing ttl u)

  -- Login
  unfoldable pub login_user : String → String → Table → Table × Answer Grant
  unfolding granted_user
  login_user email password users =
      let (users', result) =
        login crypto env.find_refused env.write_refused env.now email password env.ip users in
      (users', granted_user result)

  unfoldable pub granted_session : AuthError ⊎ Account → Answer Grant
  granted_session (inl e) = unauthorized
  granted_session (inr u) = signed_session u (create_token crypto env.signing ttl u)

  unfoldable pub second_step_user : String → Table → AuthError ⊎ (ℕ × Bool) → Table × Answer Grant
  unfolding granted_session
  second_step_user code users (inl e) = (users, unauthorized)
  second_step_user code users (inr (id, is_admin)) =
      if is_admin
      then (users, unauthorized)
      else (let (users', result) =
            login_totp crypto env.find_refused env.write_refused env.now id code env.ip users in
          (users', granted_session result))

  -- LoginTotp
  unfoldable pub login_totp_user : Text → String → Table → Table × Answer Grant
  unfolding second_step_user
  login_totp_user token code users =
      second_step_user code users (parse_totp_pending_token crypto env.now token)

  unfoldable pub granted_admin : AuthError ⊎ Account → Answer Grant
  granted_admin (inl e) = unauthorized
  granted_admin (inr a) =
      if a.totp_enabled
      then signed_pending (create_totp_pending_token crypto env.signing a.id true)
      else signed_session a (create_admin_token crypto env.signing ttl a)

  -- AdminLogin
  unfoldable pub login_admin : String → String → Table → Table × Answer Grant
  unfolding granted_admin
  login_admin email password admins =
      let (admins', result) =
        login crypto env.find_refused env.write_refused env.now email password env.ip admins in
      (admins', granted_admin result)

  unfoldable pub granted_admin_session : AuthError ⊎ Account → Answer Grant
  granted_admin_session (inl e) = unauthorized
  granted_admin_session (inr a) = signed_session a (create_admin_token crypto env.signing ttl a)

  unfoldable pub second_step_admin : String → Table → AuthError ⊎ (ℕ × Bool) → Table × Answer Grant
  unfolding granted_admin_session
  second_step_admin code admins (inl e) = (admins, unauthorized)
  second_step_admin code admins (inr (id, is_admin)) =
      if not is_admin
      then (admins, unauthorized)
      else (let (admins', result) =
            login_totp crypto env.find_refused env.write_refused env.now id code env.ip admins in
          (admins', granted_admin_session result))

  -- AdminLoginTotp
  unfoldable pub login_totp_admin : Text → String → Table → Table × Answer Grant
  unfolding second_step_admin
  login_totp_admin token code admins =
      second_step_admin code admins (parse_totp_pending_token crypto env.now token)
