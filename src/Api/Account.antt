-- ===== src/Api/Account.antt =====
-- internal/api/handler/auth.go and admin_auth.go: what a person changes of the own account. The two
-- files do the same on two tables; `action` is what the audit log says of it.
use axmi_pusher.Base.{ℕ, String, Bool, Option, List, some, none, inl, inr, if◌then◌else◌, ltb}
use axmi_pusher.Base.Keys.{codes}
use axmi_pusher.Accounts.{Account, Table, Crypto, AuthError, email_exists, byte_length}
use axmi_pusher.Accounts.Profile.{Refusals, update_profile, change_email, change_password}
use axmi_pusher.Accounts.Totp.{setup_totp, confirm_totp, disable_totp}
use axmi_pusher.Api.{Answer, ok, bad_request, unauthorized, conflict, server_error, AuditLog, audit}

-- What one request meets: the refusals of its statements and of its audit row, the clock, the salt
-- of bcrypt, and the secret and picture that the TOTP library makes.
pub record AccountEnv : Type 0 where
  pub refusals : Refusals
  pub audit_refused : Bool
  pub now : ℕ
  pub salt : ℕ
  pub generated : Option String
  pub drawn : Bool

-- A table with the audit log.
abbrev pub Logged : Type 0
Logged = Table × List AuditLog

abbrev done : Option AuthError → Answer (Unit {0})
done none = ok tt
done (some e) = bad_request

module _ (crypto : Crypto) (env : AccountEnv) (action : String) where
  -- ChangePassword, AdminChangePassword: every error is a bad request.
  unfoldable pub change_password_handler :
      Option Account → String → String → Logged → Logged × Answer (Unit {0})
  change_password_handler none old new (rows, logs) = ((rows, logs), unauthorized)
  change_password_handler (some a) old new (rows, logs) =
      let (rows', e) = change_password crypto env.refusals env.salt a.id old new rows in
      elim e [
        | none ↦ ((rows', audit env.audit_refused a.id a.email action logs), ok tt)
        | some e' ↦ ((rows', logs), bad_request)
      ]

  -- UpdateProfile, AdminUpdateProfile: names are measured in bytes.
  unfoldable pub update_profile_handler :
      Option Account → String → String → Logged → Logged × Answer Account
  update_profile_handler none nickname qq (rows, logs) = ((rows, logs), unauthorized)
  update_profile_handler (some a) nickname qq (rows, logs) =
      if ltb 64 (byte_length (codes nickname))
      then ((rows, logs), bad_request)
      else (if ltb 32 (byte_length (codes qq))
          then ((rows, logs), bad_request)
          else (let (rows', updated) = update_profile env.refusals a.id nickname qq rows in
              elim updated [
                | inl e ↦ ((rows', logs), server_error)
                | inr u ↦ ((rows', audit env.audit_refused a.id a.email action logs), ok u)
              ]))

  abbrev email_failed : AuthError → Answer Account
  email_failed email_exists = conflict
  email_failed _ = server_error

  -- ChangeEmail, AdminChangeEmail
  unfoldable pub change_email_handler : Option Account → String → Logged → Logged × Answer Account
  change_email_handler none email (rows, logs) = ((rows, logs), unauthorized)
  change_email_handler (some a) email (rows, logs) =
      let (rows', updated) = change_email env.refusals a.id email rows in
      elim updated [
        | inl e ↦ ((rows', logs), email_failed e)
        | inr u ↦ ((rows', audit env.audit_refused a.id u.email action logs), ok u)
      ]

module _ (crypto : Crypto) (env : AccountEnv) where
  -- SetupTotp, AdminSetupTotp
  unfoldable pub setup_totp_handler : Option Account → Table → Table × Answer (Unit {0})
  setup_totp_handler none rows = (rows, unauthorized)
  setup_totp_handler (some a) rows =
      let (rows', e) =
        setup_totp env.refusals.finding env.refusals.writing env.generated env.drawn a.id rows in
      (rows', done e)

  -- ConfirmTotp, AdminConfirmTotp
  unfoldable pub confirm_totp_handler : Option Account → String → Table → Table × Answer (Unit {0})
  confirm_totp_handler none digits rows = (rows, unauthorized)
  confirm_totp_handler (some a) digits rows =
      let (rows', e) =
        confirm_totp crypto env.refusals.finding env.refusals.writing env.now a.id digits rows in
      (rows', done e)

  -- DisableTotp, AdminDisableTotp
  unfoldable pub disable_totp_handler : Option Account → String → Table → Table × Answer (Unit {0})
  disable_totp_handler none digits rows = (rows, unauthorized)
  disable_totp_handler (some a) digits rows =
      let (rows', e) =
        disable_totp crypto env.refusals.finding env.refusals.writing env.now a.id digits rows in
      (rows', done e)
