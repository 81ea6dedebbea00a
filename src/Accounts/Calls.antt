-- ===== src/Accounts/Calls.antt =====
-- Every operation on a table of accounts, as one family of calls.
pub mod Errors
pub mod Unique
pub mod Rows
use axmi_pusher.Base.{ℕ, String, Bool, Option, some, none, inl, inr, ◌⊎◌, nat_eq}
use axmi_pusher.Models.{RowStatus}
use axmi_pusher.Accounts.{Table, Crypto, AuthError}
use axmi_pusher.Accounts.Login.{login, login_totp}
use axmi_pusher.Accounts.Totp.{setup_totp, confirm_totp, disable_totp}
use axmi_pusher.Accounts.Profile.{Refusals, update_profile, change_email, change_password}
use axmi_pusher.Accounts.Admins.{create_admin, set_admin_status, reset_admin_password}
use axmi_pusher.Accounts.Register.{make_user}

pub data AccountCall : Type 0 where
  log_in : String → String → String → AccountCall
  log_in_totp : ℕ → String → String → AccountCall
  set_up_totp : Option String → Bool → ℕ → AccountCall
  confirm disable : ℕ → String → AccountCall
  put_profile : ℕ → String → String → AccountCall
  put_email : ℕ → String → AccountCall
  put_password : ℕ → String → String → AccountCall
  register_user add_admin : ℕ → String → String → String → AccountCall
  put_status : ℕ → ℕ → RowStatus → AccountCall
  reset_password : ℕ → String → AccountCall

abbrev pub error_of : {A : Type 0} → AuthError ⊎ A → Option AuthError
error_of (inl e) = some e
error_of (inr a) = none

abbrev pub with_error : {A : Type 0} → Table × (AuthError ⊎ A) → Table × Option AuthError
with_error (rows, r) = (rows, error_of r)

module _ (crypto : Crypto) (env : Refusals) (salt now : ℕ) where
  unfoldable pub call : AccountCall → Table → Table × Option AuthError
  call (log_in email password ip) rows =
      with_error (login crypto env.finding env.writing now email password ip rows)
  call (log_in_totp id digits ip) rows =
      with_error (login_totp crypto env.finding env.writing now id digits ip rows)
  call (set_up_totp generated drawn id) rows =
      setup_totp env.finding env.writing generated drawn id rows
  call (confirm id digits) rows = confirm_totp crypto env.finding env.writing now id digits rows
  call (disable id digits) rows = disable_totp crypto env.finding env.writing now id digits rows
  call (put_profile id nickname qq) rows = with_error (update_profile env id nickname qq rows)
  call (put_email id email) rows = with_error (change_email env id email rows)
  call (put_password id old new) rows = change_password crypto env salt id old new rows
  call (register_user id email password nickname) rows =
      with_error (make_user crypto env salt id email password nickname rows)
  call (add_admin id email password nickname) rows =
      with_error (create_admin crypto env salt id email password nickname rows)
  call (put_status operator target status) rows = set_admin_status env operator target status rows
  call (reset_password id password) rows = reset_admin_password crypto env salt id password rows
