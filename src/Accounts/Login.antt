-- ===== src/Accounts/Login.antt =====
-- Login and AdminLogin, the first step; UserLoginTotp and AdminLoginTotp, the second.
use axmi_pusher.Base.{
  ℕ, String, Bool, Option, some, none, inl, inr, ◌⊎◌, first, update, ◌==◌, if◌then◌else◌, not,
  nat_eq, string_eq,
}
use axmi_pusher.Models.{is_active}
use axmi_pusher.Accounts.{
  Account, Table, Crypto, AuthError, bad_credential, user_disabled, totp_is_off, totp_invalid,
}

-- last_login_at and last_login_ip
abbrev pub logged_in : ℕ → String → Account → Account
logged_in now ip a = record a { last_login_at = some now; last_login_ip = ip }

-- The write is not checked: whether it is made or refused, the login succeeds.
unfoldable pub note_login : Bool → ℕ → String → Account → Table → Table
note_login write_refused now ip a rows =
    if write_refused then rows else update (λ r. r.id == a.id) (logged_in now ip) rows

module _ (crypto : Crypto) (find_refused write_refused : Bool) (now : ℕ) where
  unfoldable pub login_found :
      String → String → Table → Option Account → Table × (AuthError ⊎ Account)
  login_found password ip rows none = (rows, inl bad_credential)
  login_found password ip rows (some a) =
      if not (crypto.compare a.password_hash password)
      then (rows, inl bad_credential)
      else (if not (is_active a.status)
          then (rows, inl user_disabled)
          else (if a.totp_enabled
              then (rows, inr a)
              else (note_login write_refused now ip a rows, inr (logged_in now ip a))))

  -- Login on users, AdminLogin on admins.
  unfoldable pub login : String → String → String → Table → Table × (AuthError ⊎ Account)
  unfolding login_found
  login email password ip rows =
      login_found password ip rows
        (if find_refused then none else first (λ a. a.email == email) rows)

  unfoldable pub login_totp_found :
      String → String → Table → Option Account → Table × (AuthError ⊎ Account)
  login_totp_found code ip rows none = (rows, inl bad_credential)
  login_totp_found code ip rows (some a) =
      if not a.totp_enabled
      then (rows, inl totp_is_off)
      else (if not (crypto.validate code a.totp_secret now)
          then (rows, inl totp_invalid)
          else (if not (is_active a.status)
              then (rows, inl user_disabled)
              else (note_login write_refused now ip a rows, inr (logged_in now ip a))))

  -- UserLoginTotp on users, AdminLoginTotp on admins.
  unfoldable pub login_totp : ℕ → String → String → Table → Table × (AuthError ⊎ Account)
  unfolding login_totp_found
  login_totp id code ip rows =
      login_totp_found code ip rows (if find_refused then none else first (λ a. a.id == id) rows)
