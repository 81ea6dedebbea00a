-- ===== src/Accounts/Calls/Unique.antt =====
-- Keys and e-mail addresses stay unique.
use axmi_pusher.Base.{
  ℕ, String, Option, some, none, inl, inr, ◌⊎◌, ◌≡◌, refl, arith, ◌==◌, ◌&&◌, nat_eq, string_eq,
  not, count, Bool-cases, read_first, first_passes, nat_beq_iff,
}
use axmi_pusher.Models.{RowStatus}
use axmi_pusher.Accounts.{Account, Table, Crypto, AuthError}
use axmi_pusher.Accounts.Login.{login, login_totp, login_found, login_totp_found, note_login}
use axmi_pusher.Accounts.Totp.{setup_totp, confirm_totp, disable_totp}
use axmi_pusher.Accounts.Profile.{
  Refusals, find_row, profile_of, update_profile, change_email, email_of, change_password,
}
use axmi_pusher.Accounts.Admins.{
  new_account, create_admin, set_admin_status, reset_admin_password, written_status,
}
use axmi_pusher.Accounts.Register.{make_user}
use axmi_pusher.Accounts.Calls.{
  AccountCall, log_in, log_in_totp, set_up_totp, confirm, disable, put_profile, put_email,
  put_password, register_user, add_admin, put_status, reset_password, call,
}
use axmi_pusher.Accounts.Calls.Rows.{
  totp-Unique, hash-Unique, status-Unique, login-Unique, profile-Unique, HasUniqueAccounts,
  Unique-append, address-Unique,
}

-- The key of a new row is one that the database has not given before.
abbrev pub IsFresh : AccountCall → Table → Type 0
IsFresh (register_user id email password nickname) rows = count (λ a. a.id == id) rows ≡ 0
IsFresh (add_admin id email password nickname) rows = count (λ a. a.id == id) rows ≡ 0
IsFresh _ rows = Unit

module _ (crypto : Crypto) (env : Refusals) (salt now : ℕ) where
  login_found-Unique :
      (secret ip : String) (rows : Table) (o : Option Account)
      → HasUniqueAccounts rows
      → HasUniqueAccounts (login_found crypto env.finding env.writing now secret ip rows o).0
  unfolding login_found note_login
  login_found-Unique secret ip rows none u = u
  login_found-Unique secret ip rows (some a) u =
      let new = login-Unique rows u a.id now ip in ground arith

  login_totp_found-Unique :
      (digits ip : String) (rows : Table) (o : Option Account)
      → HasUniqueAccounts rows
      → HasUniqueAccounts (login_totp_found crypto env.finding env.writing now digits ip rows o).0
  unfolding login_totp_found note_login
  login_totp_found-Unique digits ip rows none u = u
  login_totp_found-Unique digits ip rows (some a) u =
      let new = login-Unique rows u a.id now ip in ground arith

  profile_of-Unique :
      (id : ℕ) (nickname qq : String) (rows : Table) (o : Option Account)
      → HasUniqueAccounts rows
      → HasUniqueAccounts (profile_of env id nickname qq rows o).0
  unfolding profile_of
  profile_of-Unique id nickname qq rows none u = u
  profile_of-Unique id nickname qq rows (some a) u =
      let new = profile-Unique rows a.id nickname qq u in ground arith

  email_of-Unique :
      (id : ℕ) (email : String) (rows : Table) (o : Option Account)
      → find_row env.finding id rows ≡ o
      → count (λ a. a.email == email && not (a.id == id)) rows ≡ 0
      → HasUniqueAccounts rows
      → HasUniqueAccounts (email_of env id email rows o).0
  unfolding email_of
  email_of-Unique id email rows none f free u = u
  email_of-Unique id email rows (some a) f free u =
      let row = read_first env.finding (λ r. r.id == id) rows a f in
      let same : a.id ≡ id = (nat_beq_iff a.id id).0 (first_passes (λ r. r.id == id) rows a row) in
      let new = address-Unique id email _ rows (λ a. refl) (λ a. refl) free u in
      elim (Bool-cases env.writing) [ inl refused ↦ rw refused u | inr made ↦ rw (made, same) new ]

  change_email-Unique :
      (id : ℕ) (email : String) (rows : Table)
      → HasUniqueAccounts rows
      → HasUniqueAccounts (change_email env id email rows).0
  unfolding change_email
  change_email-Unique id email rows u = elim (Bool-cases env.counting) [
    | inl c ↦ rw c u
    | inr n ↦ elim (Bool-cases (count (λ a. a.email == email && not (a.id == id)) rows == 0)) [
      | inr taken ↦ rw (n, taken) u
      | inl free ↦ rw (n, free) (email_of-Unique id email rows _ refl ((nat_beq_iff _ 0).0 free) u)
    ]
  ]

  make_user-Unique :
      (id : ℕ) (email password nickname : String) (rows : Table)
      → count (λ a. a.id == id) rows ≡ 0
      → HasUniqueAccounts rows
      → HasUniqueAccounts (make_user crypto env salt id email password nickname rows).0
  unfolding make_user new_account
  make_user-Unique id email password nickname rows fresh u =
      grind (arith, Unique-append, nat_beq_iff)

  create_admin-Unique :
      (id : ℕ) (email password nickname : String) (rows : Table)
      → count (λ a. a.id == id) rows ≡ 0
      → HasUniqueAccounts rows
      → HasUniqueAccounts (create_admin crypto env salt id email password nickname rows).0
  unfolding create_admin new_account
  create_admin-Unique id email password nickname rows fresh u =
      grind (arith, Unique-append, nat_beq_iff)

  written_status-Unique :
      (status : RowStatus) (rows : Table) (r : AuthError ⊎ ℕ)
      → HasUniqueAccounts rows
      → HasUniqueAccounts (written_status env status rows r).0
  unfolding written_status
  written_status-Unique status rows (inl e) u = u
  written_status-Unique status rows (inr id) u =
      let new = status-Unique rows u id status in ground arith

  -- No call gives two accounts of a table one key or one e-mail address: the code's own check keeps
  -- the addresses apart, and the database gives each new row a fresh key.
  pub call-Unique :
      (c : AccountCall) (rows : Table)
      → IsFresh c rows
      → HasUniqueAccounts rows
      → HasUniqueAccounts (call crypto env salt now c rows).0
  unfolding call
  call-Unique (log_in email password ip) rows fresh u =
      unfold login in login_found-Unique password ip rows _ u
  call-Unique (log_in_totp id digits ip) rows fresh u =
      unfold login_totp in login_totp_found-Unique digits ip rows _ u
  call-Unique (set_up_totp generated drawn id) rows fresh u =
      unfold setup_totp in grind (arith, totp-Unique)
  call-Unique (confirm id digits) rows fresh u = unfold confirm_totp in grind (arith, totp-Unique)
  call-Unique (disable id digits) rows fresh u = unfold disable_totp in grind (arith, totp-Unique)
  call-Unique (put_profile id nickname qq) rows fresh u =
      unfold update_profile in profile_of-Unique id nickname qq rows _ u
  call-Unique (put_email id email) rows fresh u = change_email-Unique id email rows u
  call-Unique (put_password id old new) rows fresh u =
      unfold change_password in grind (arith, hash-Unique)
  call-Unique (register_user id email password nickname) rows fresh u =
      make_user-Unique id email password nickname rows fresh u
  call-Unique (add_admin id email password nickname) rows fresh u =
      create_admin-Unique id email password nickname rows fresh u
  call-Unique (put_status operator target status) rows fresh u =
      unfold set_admin_status in written_status-Unique status rows _ u
  call-Unique (reset_password id password) rows fresh u =
      unfold reset_admin_password in grind (arith, hash-Unique)
