-- ===== src/Accounts/Admins.antt =====
-- The administration of administrators: ListAdmins, CreateAdmin, SetAdminStatus and
-- ResetAdminPassword. An Admin and a User that an administrator makes start alike.
use axmi_pusher.Base.{
  ℕ, String, Bool, Option, [], ◌∷◌, ◌++◌, false, some, none, inl, inr, ◌⊎◌, update, count, ◌==◌,
  if◌then◌else◌, not, ◌&&◌, nat_eq, string_eq, leb,
}
use mathlib.Core.List.{reverse}
use axmi_pusher.Models.{is_disabled, RowStatus, active, is_active}
use axmi_pusher.Accounts.{
  Account, Table, Crypto, AuthError, refused, email_exists, short_password, hash_failed,
  own_account, no_such_admin, last_admin, admin_role_normal, is_long_enough,
}
use axmi_pusher.Accounts.Profile.{Refusals, find_row, set_password}

-- A row as it is created: active, with the fields that are given.
unfoldable pub new_account : ℕ → String → String → String → String → Account
new_account id email hash nickname role = record {
  id = id;
  email = email;
  password_hash = hash;
  nickname = nickname;
  quota = "";
  plan_id = 0;
  role = role;
  status = active;
  qq = "";
  last_login_ip = "";
  totp_secret = "";
  totp_enabled = false;
  last_login_at = none;
}

-- ListAdmins; the rows stand in the order of their keys.
unfoldable pub list_admins : Bool → Table → Option Table
list_admins find_refused admins = if find_refused then none else some (reverse admins)

-- Update("status", …)
abbrev pub write_status : Bool → ℕ → RowStatus → Table → Table × Option AuthError
write_status write_refused id status rows =
    if write_refused
    then (rows, some refused)
    else (update (λ a. a.id == id) (λ a. record a { status = status }) rows, none)

-- The checks of SetAdminStatus: the key of the row that is written, if they pass.
unfoldable pub checked_status : Refusals → ℕ → RowStatus → Table → Option Account → AuthError ⊎ ℕ
checked_status env target status admins none = inl no_such_admin
checked_status env target status admins (some a) =
    if is_disabled status
    then (if env.counting
        then inl refused
        else (if leb (count (λ r. is_active r.status) admins) 1 then inl last_admin else inr a.id))
    else inr a.id

unfoldable pub check_status : Refusals → ℕ → ℕ → RowStatus → Table → AuthError ⊎ ℕ
unfolding checked_status
check_status env operator target status admins =
    if target == operator && is_disabled status
    then inl own_account
    else checked_status env target status admins (find_row env.finding target admins)

unfoldable pub written_status :
    Refusals → RowStatus → Table → AuthError ⊎ ℕ → Table × Option AuthError
written_status env status admins (inl e) = (admins, some e)
written_status env status admins (inr id) = write_status env.writing id status admins

-- SetAdminStatus: the checks, and then the write, in statements of their own.
unfoldable pub set_admin_status : Refusals → ℕ → ℕ → RowStatus → Table → Table × Option AuthError
unfolding check_status written_status
set_admin_status env operator target status admins =
    written_status env status admins (check_status env operator target status admins)

module _ (crypto : Crypto) where
  -- CreateAdmin, with the key that the database gives.
  unfoldable pub create_admin :
      Refusals → ℕ → ℕ → String → String → String → Table → Table × (AuthError ⊎ Account)
  create_admin env salt id email password nickname admins =
      if not (is_long_enough password)
      then (admins, inl short_password)
      else (if env.counting
          then (admins, inl refused)
          else (if not (count (λ a. a.email == email) admins == 0)
              then (admins, inl email_exists)
              else elim (crypto.generate salt password) [
                | none ↦ (admins, inl hash_failed)
                | some hash ↦
                    let a = new_account id email hash nickname admin_role_normal in
                    if env.writing then (admins, inl refused) else (admins ++ (a ∷ []), inr a)
              ]))

  -- ResetAdminPassword
  unfoldable pub reset_admin_password : Refusals → ℕ → ℕ → String → Table → Table × Option AuthError
  reset_admin_password env salt id password admins =
      if not (is_long_enough password)
      then (admins, some short_password)
      else elim (find_row env.finding id admins) [
        | none ↦ (admins, some no_such_admin)
        | some a ↦ set_password crypto env.writing salt a.id password admins
      ]
