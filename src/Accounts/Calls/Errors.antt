-- ===== src/Accounts/Calls/Errors.antt =====
-- What a call that fails has changed.
use axmi_pusher.Base.{
  ℕ, String, Bool, Option, [], ◌∷◌, true, false, some, none, inl, inr, ◌⊎◌, ◌≡◌, ◌≢◌, refl, arith,
  ◌==◌, if◌then◌else◌, nat_eq, string_eq, update, first, not, read_first, Bool-cases, count, ◌&&◌,
}
use axmi_pusher.Models.{RowStatus}
use axmi_pusher.Accounts.{Account, Table, Crypto, AuthError}
use axmi_pusher.Accounts.Login.{login, login_totp, login_found, login_totp_found}
use axmi_pusher.Accounts.Totp.{setup_totp, confirm_totp, disable_totp}
use axmi_pusher.Accounts.Profile.{
  email_of, profile_of, find_row, Refusals, update_profile, change_email, change_password,
}
use axmi_pusher.Accounts.Admins.{
  create_admin, set_admin_status, reset_admin_password, written_status,
}
use axmi_pusher.Accounts.Register.{make_user}
use axmi_pusher.Accounts.Calls.{
  with_error, AccountCall, log_in, log_in_totp, set_up_totp, confirm, disable, put_profile,
  put_email, put_password, register_user, add_admin, put_status, reset_password, call,
}

-- The step that a call takes after its write, if it has one, does not fail: reading the row again, or
-- drawing the picture of a secret.
abbrev pub EndsWell : Refusals → AccountCall → Type 0
EndsWell env (set_up_totp generated drawn id) = drawn ≡ true
EndsWell env (put_profile id nickname qq) = env.reading ≡ false
EndsWell env (put_email id email) = env.reading ≡ false
EndsWell env _ = Unit

-- A row that is there is found after a write that keeps the keys.
first-update :
    (q : Account → Bool) (f : Account → Account) (id : ℕ) (rows : Table) (a : Account)
    → ((r : Account) → (f r).id ≡ r.id)
    → first (λ r. r.id == id) rows ≡ some a
    → first (λ r. r.id == id) (update q f rows) ≢ none
first-update q f id [] a keeps h = cc
first-update q f id (r ∷ rows) a keeps h = ground (arith, keeps r, first-update q f id rows a keeps)

profile_found :
    (row id : ℕ) (nickname qq : String) (rows : Table) (a : Account)
    → first (λ r. r.id == id) rows ≡ some a
    → first
        (λ r. r.id == id)
        (update
          (λ r. r.id == row)
          (λ r. record r { nickname = if nickname == "" then r.nickname else nickname; qq = qq })
          rows)
      ≢ none
profile_found row id nickname qq rows a h =
    first-update _
      (λ r. record r { nickname = if nickname == "" then r.nickname else nickname; qq = qq }) id
      rows a (λ r. refl) h

email_found :
    (row id : ℕ) (email : String) (rows : Table) (a : Account)
    → first (λ r. r.id == id) rows ≡ some a
    → first (λ r. r.id == id) (update (λ r. r.id == row) (λ r. record r { email = email }) rows)
      ≢ none
email_found row id email rows a h =
    first-update _ (λ r. record r { email = email }) id rows a (λ r. refl) h

module _ (crypto : Crypto) (env : Refusals) (salt now : ℕ) where
  login_found-unchanged :
      (secret ip : String) (rows : Table) (o : Option Account) (e : AuthError)
      → (login_found crypto env.finding env.writing now secret ip rows o).1 ≡ inl e
      → (login_found crypto env.finding env.writing now secret ip rows o).0 ≡ rows
  unfolding login_found
  login_found-unchanged secret ip rows none e h = refl
  login_found-unchanged secret ip rows (some a) e h = ground arith

  login_totp_found-unchanged :
      (digits ip : String) (rows : Table) (o : Option Account) (e : AuthError)
      → (login_totp_found crypto env.finding env.writing now digits ip rows o).1 ≡ inl e
      → (login_totp_found crypto env.finding env.writing now digits ip rows o).0 ≡ rows
  unfolding login_totp_found
  login_totp_found-unchanged digits ip rows none e h = refl
  login_totp_found-unchanged digits ip rows (some a) e h = ground arith

  written_status-unchanged :
      (status : RowStatus) (rows : Table) (r : AuthError ⊎ ℕ) (e : AuthError)
      → (written_status env status rows r).1 ≡ some e
      → (written_status env status rows r).0 ≡ rows
  unfolding written_status
  written_status-unchanged status rows (inl e') e h = refl
  written_status-unchanged status rows (inr id) e h = ground arith

  profile_unchanged :
      (id : ℕ) (nickname qq : String) (rows : Table) (e : AuthError) (o : Option Account)
      → find_row env.finding id rows ≡ o
      → env.reading ≡ false
      → (with_error (profile_of env id nickname qq rows o)).1 ≡ some e
      → (with_error (profile_of env id nickname qq rows o)).0 ≡ rows
  unfolding profile_of
  profile_unchanged id nickname qq rows e none f well h = refl
  profile_unchanged id nickname qq rows e (some u) f well h =
      let row = read_first env.finding (λ r. r.id == id) rows u f in
      ground (arith, profile_found u.id id nickname qq rows u row)

  email_unchanged :
      (id : ℕ) (email : String) (rows : Table) (e : AuthError) (o : Option Account)
      → find_row env.finding id rows ≡ o
      → env.reading ≡ false
      → (with_error (email_of env id email rows o)).1 ≡ some e
      → (with_error (email_of env id email rows o)).0 ≡ rows
  unfolding email_of
  email_unchanged id email rows e none f well h = refl
  email_unchanged id email rows e (some u) f well h =
      let row = read_first env.finding (λ r. r.id == id) rows u f in
      ground (arith, email_found u.id id email rows u row)

  change_unchanged :
      (id : ℕ) (email : String) (rows : Table) (e : AuthError)
      → env.reading ≡ false
      → (with_error (change_email env id email rows)).1 ≡ some e
      → (with_error (change_email env id email rows)).0 ≡ rows
  unfolding change_email
  change_unchanged id email rows e well h = elim (Bool-cases env.counting) [
    | inl c ↦ rw c refl
    | inr n ↦ elim (Bool-cases (count (λ a. a.email == email && not (a.id == id)) rows == 0)) [
      | inr taken ↦ rw (n, taken) refl
      | inl free ↦ rw (n, free) (email_unchanged id email rows e _ refl well (rw (n, free) at h))
    ]
  ]

  -- A call that fails leaves its table as it was: the write is the last statement of each, but for
  -- setting up TOTP, whose picture is drawn after it, and the changes of profile and address, which
  -- read the row again; for these, this last step is supposed not to fail.
  pub failed_call_unchanged :
      (c : AccountCall) (rows : Table) (e : AuthError)
      → EndsWell env c
      → (call crypto env salt now c rows).1 ≡ some e
      → (call crypto env salt now c rows).0 ≡ rows
  unfolding call update_profile
  failed_call_unchanged (log_in email password ip) rows e well h =
      unfold login in grind (arith, login_found-unchanged)
  failed_call_unchanged (log_in_totp id digits ip) rows e well h =
      unfold login_totp in grind (arith, login_totp_found-unchanged)
  failed_call_unchanged (set_up_totp generated drawn id) rows e well h =
      unfold setup_totp in grind arith
  failed_call_unchanged (confirm id digits) rows e well h = unfold confirm_totp in grind arith
  failed_call_unchanged (disable id digits) rows e well h = unfold disable_totp in grind arith
  failed_call_unchanged (put_profile id nickname qq) rows e well h =
      profile_unchanged id nickname qq rows e _ refl well h
  failed_call_unchanged (put_email id email) rows e well h = change_unchanged id email rows e well h
  failed_call_unchanged (put_password id old new) rows e well h =
      unfold change_password in grind arith
  failed_call_unchanged (register_user id email password nickname) rows e well h =
      unfold make_user in grind arith
  failed_call_unchanged (add_admin id email password nickname) rows e well h =
      unfold create_admin in grind arith
  failed_call_unchanged (put_status operator target status) rows e well h =
      unfold set_admin_status in written_status-unchanged status rows _ e h
  failed_call_unchanged (reset_password id password) rows e well h =
      unfold reset_admin_password in grind arith
