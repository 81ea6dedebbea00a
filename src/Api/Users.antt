-- ===== src/Api/Users.antt =====
-- internal/api/handler/admin.go: what an administrator does to the users.
pub mod Written
pub mod Kept
use axmi_pusher.Base.{
  ℕ, String, Bool, Option, List, [], ◌∷◌, ◌++◌, true, false, none, some, inl, inr, ◌⊎◌, ◌==◌, ◌&&◌,
  ◌||◌, not, if◌then◌else◌, nat_eq, string_eq, count, update, length, is_some,
}
use Prim.Native.Char.{code}
use mathlib.Core.List.{reverse}
use axmi_pusher.Base.Int.{ℤ}
use axmi_pusher.Base.Paging.{slice}
use axmi_pusher.Models.{RowStatus, is_active, is_disabled}
use axmi_pusher.Service.Messages.{is_blank}
use axmi_pusher.Accounts.{
  Account, Table, Crypto, role_tenant_user, role_platform_admin, is_long_enough,
}
use axmi_pusher.Accounts.Profile.{find_row}
use axmi_pusher.Accounts.Admins.{new_account}
use axmi_pusher.Accounts.Register.{default_if_empty}
use axmi_pusher.Api.{
  Answer, ok, bad_request, forbidden, not_found, conflict, server_error, AuditLog, audit,
}
use axmi_pusher.Api.Account.{AccountEnv, Logged}

-- strings.TrimSpace, on a String.
unfoldable pub trim_start : String → String
trim_start String.[] = ""
trim_start (String.◌∷◌ c s) =
    let rest = trim_start s in if is_blank (code c) then rest else String.◌∷◌ c s

unfoldable pub reversed_onto : String → String → String
reversed_onto String.[] t = t
reversed_onto (String.◌∷◌ c s) t = reversed_onto s (String.◌∷◌ c t)

abbrev pub trimmed : String → String
trimmed s = reversed_onto (trim_start (reversed_onto (trim_start s) "")) ""

-- strings.Contains(s, "@")
unfoldable pub has_at : String → Bool
has_at String.[] = false
has_at (String.◌∷◌ c s) = code c == b'@' || has_at s

-- currentAdminID and currentAdminEmail
abbrev pub current_admin_id : Option Account → ℕ
current_admin_id none = 0
current_admin_id (some a) = a.id

abbrev pub current_admin_email : Option Account → String
current_admin_email none = ""
current_admin_email (some a) = a.email

-- The rows that a check of an address would count: none, if the count is refused, which is not checked.
abbrev pub counted : Bool → (Account → Bool) → Table → ℕ
counted count_refused q users = if count_refused then 0 else count q users

abbrev pub is_platform : Account → Bool
is_platform u = u.role == role_platform_admin

-- ListUsers: the total is not checked.
unfoldable pub list_users : Bool → Bool → ℤ → ℤ → Table → Answer (Table × ℕ)
list_users find_refused count_refused page size users =
    if find_refused
    then server_error
    else ok (slice page size (reverse users), if count_refused then 0 else length users)

-- The columns that UpdateUser writes: none is left as it is.
pub record Changes : Type 0 where
  pub new_email : Option String
  pub new_nickname : Option String
  pub new_hash : Option String

abbrev pub kept_or : String → Option String → String
kept_or old none = old
kept_or old (some new) = new

abbrev pub changed : Changes → Account → Account
changed c a = record a {
  email = kept_or a.email c.new_email;
  nickname = kept_or a.nickname c.new_nickname;
  password_hash = kept_or a.password_hash c.new_hash;
}

abbrev pub is_empty : Changes → Bool
is_empty c = not (is_some c.new_email) && not (is_some c.new_nickname) && not (is_some c.new_hash)

-- Whether another row has the new address.
abbrev pub is_taken : ℕ → Option String → Table → Bool
is_taken id none users = false
is_taken id (some e) users = not (count (λ r. r.email == e && not (r.id == id)) users == 0)

module _ (crypto : Crypto) (env : AccountEnv) (admin : Option Account) where
  abbrev pub audit_of : String → List AuditLog → List AuditLog
  audit_of action logs =
      audit env.audit_refused (current_admin_id admin) (current_admin_email admin) action logs

  -- CreateUser, with the key that the database gives, which lets no address in twice.
  unfoldable pub put_user : ℕ → String → String → Option String → Logged → Logged × Answer Account
  put_user id email nickname none (users, logs) = ((users, logs), server_error)
  put_user id email nickname (some hash) (users, logs) =
      let u = new_account id email hash (default_if_empty nickname email) role_tenant_user in
      if env.refusals.writing || not (count (λ r. r.email == email) users == 0)
      then ((users, logs), conflict)
      else ((users ++ (u ∷ []), audit_of "user.create" logs), ok u)

  unfoldable pub create_user : ℕ → String → String → String → Logged → Logged × Answer Account
  unfolding put_user
  create_user id email password nickname (users, logs) =
      let address = trimmed email in
      if not (has_at address)
      then ((users, logs), bad_request)
      else (if not (is_long_enough password)
          then ((users, logs), bad_request)
          else (if not (counted env.refusals.counting (λ r. r.email == address) users == 0)
              then ((users, logs), conflict)
              else put_user id address (trimmed nickname) (crypto.generate env.salt password)
                  (users, logs)))

  unfoldable pub put_status : RowStatus → Option Account → Logged → Logged × Answer (Unit {0})
  put_status status none (users, logs) = ((users, logs), not_found)
  put_status status (some u) (users, logs) =
      if is_platform u
      then ((users, logs), forbidden)
      else (if env.refusals.writing then ((users, logs), server_error) else (
        (
          update (λ r. r.id == u.id) (λ r. record r { status = status }) users,
          audit_of "user.set_status" logs,
        ),
        ok tt,
      ))

  -- SetUserStatus; the binding lets two states through.
  unfoldable pub set_user_status : ℕ → RowStatus → Logged → Logged × Answer (Unit {0})
  unfolding put_status
  set_user_status id status (users, logs) =
      if is_active status || is_disabled status
      then put_status status (find_row env.refusals.finding id users) (users, logs)
      else ((users, logs), bad_request)

  unfoldable pub checked_email : ℕ → String → Table → Account → Answer (Option String)
  checked_email id email users u =
      if email == "" || email == u.email
      then ok none
      else (if not (has_at email)
          then bad_request
          else (if not (
                counted env.refusals.counting (λ r. r.email == email && not (r.id == id)) users
                == 0)
              then conflict
              else ok (some email)))

  abbrev pub hash_or_error : Option String → Answer (Option String)
  hash_or_error none = server_error
  hash_or_error (some hash) = ok (some hash)

  unfoldable pub checked_password : String → Answer (Option String)
  checked_password password =
      if password == ""
      then ok none
      else (if not (is_long_enough password)
          then bad_request
          else hash_or_error (crypto.generate env.salt password))

  -- The database lets no address in twice.
  unfoldable pub write_changes : Account → Changes → Logged → Logged × Answer (Unit {0})
  write_changes u c (users, logs) =
      if is_empty c
      then ((users, logs), bad_request)
      else (if env.refusals.writing || is_taken u.id c.new_email users
          then ((users, logs), server_error)
          else ((update (λ r. r.id == u.id) (changed c) users, audit_of "user.update" logs), ok tt))

  unfoldable pub with_password :
      Account
      → Option String
      → Option String
      → Answer (Option String)
      → Logged
      → Logged × Answer (Unit {0})
  unfolding write_changes
  with_password u email nickname (ok hash) logged =
      write_changes u (record { new_email = email; new_nickname = nickname; new_hash = hash })
        logged
  with_password u email nickname bad_request logged = (logged, bad_request)
  with_password u email nickname _ logged = (logged, server_error)

  unfoldable pub with_email :
      Account → String → String → Answer (Option String) → Logged → Logged × Answer (Unit {0})
  unfolding with_password checked_password
  with_email u nickname password (ok email) logged =
      with_password u email
        (if nickname == "" || nickname == u.nickname then none else some nickname)
        (checked_password password) logged
  with_email u nickname password conflict logged = (logged, conflict)
  with_email u nickname password _ logged = (logged, bad_request)

  unfoldable pub edit_user :
      ℕ → String → String → String → Option Account → Logged → Logged × Answer (Unit {0})
  unfolding with_email checked_email
  edit_user id email nickname password none logged = (logged, not_found)
  edit_user id email nickname password (some u) (users, logs) =
      if is_platform u
      then ((users, logs), forbidden)
      else with_email u nickname password (checked_email id email users u) (users, logs)

  -- UpdateUser: an empty field is no change.
  unfoldable pub update_user : ℕ → String → String → String → Logged → Logged × Answer (Unit {0})
  unfolding edit_user
  update_user id email nickname password (users, logs) =
      edit_user id email nickname password (find_row env.refusals.finding id users) (users, logs)
