-- ===== src/Api/Users/Kept.antt =====
-- What the administration of users leaves alone.
use axmi_pusher.Base.{
  ℕ, String, Option, List, false, none, some, inl, inr, ◌≡◌, refl, arith, ◌==◌, ◌||◌, not, nat_eq,
  string_eq, count, update, first, Bool-cases, read_first,
}
use axmi_pusher.Models.{RowStatus}
use axmi_pusher.Accounts.{Account, Table, Crypto}
use axmi_pusher.Accounts.Admins.{new_account}
use axmi_pusher.Accounts.Calls.Rows.{
  HasUniqueAccounts, Unique-update, Unique-append, address-Unique,
}
use axmi_pusher.Accounts.Profile.{find_row}
use axmi_pusher.Api.{
  Answer, ok, AuditLog, bad_request, unauthorized, forbidden, not_found, conflict,
  too_many_requests, server_error,
}
use axmi_pusher.Api.Account.{AccountEnv, Logged}
use axmi_pusher.Api.Users.{
  is_platform, Changes, changed, is_taken, create_user, put_user, set_user_status, put_status,
  update_user, edit_user, with_email, with_password, write_changes, trimmed,
}
use axmi_pusher.Api.Users.Written.{IsKept, select-append_other, same-IsKept, write-IsKept}

pub data UserCall : Type 0 where
  create : ℕ → String → String → String → UserCall
  put_state : ℕ → RowStatus → UserCall
  edit : ℕ → String → String → String → UserCall

-- A call of an administrator on the users.
unfoldable pub user_call : Crypto → AccountEnv → Option Account → UserCall → Logged → Logged
user_call crypto env admin (create id email password nickname) s =
    (create_user crypto env admin id email password nickname s).0
user_call crypto env admin (put_state id status) s =
    (set_user_status crypto env admin id status s).0
user_call crypto env admin (edit id email nickname password) s =
    (update_user crypto env admin id email nickname password s).0

-- The key of a new row is one that the database has not given before.
abbrev pub IsNew : UserCall → Table → Type 0
IsNew (create id email password nickname) users = count (λ u. u.id == id) users ≡ 0
IsNew _ users = Unit

module _ (crypto : Crypto) (env : AccountEnv) (admin : Option Account) (users : Table)
    (logs : List AuditLog) (kept : HasUniqueAccounts users) where
  put_user-IsKept :
      (id : ℕ) (email nickname : String) (hash : Option String)
      → count (λ u. u.id == id) users ≡ 0
      → IsKept users (put_user crypto env admin id email nickname hash (users, logs)).0.0
  unfolding put_user new_account
  put_user-IsKept id email nickname none fresh = same-IsKept users kept
  put_user-IsKept id email nickname (some hash) fresh =
      elim (Bool-cases (env.refusals.writing || not (count (λ r. r.email == email) users == 0))) [
        | inl refused ↦ rw refused (same-IsKept users kept)
        | inr free ↦ rw free (record {
          unique = Unique-append users _ fresh (ground arith) kept;
          platform = select-append_other users _ refl;
        })
      ]

  create_user-IsKept :
      (id : ℕ) (email password nickname : String)
      → count (λ u. u.id == id) users ≡ 0
      → IsKept users (create_user crypto env admin id email password nickname (users, logs)).0.0
  unfolding create_user
  create_user-IsKept id email password nickname fresh =
      let same = same-IsKept users kept in
      let put =
        put_user-IsKept id (trimmed email) (trimmed nickname) (crypto.generate env.salt password)
          fresh in
      ground arith

  put_status-IsKept :
      (id : ℕ) (status : RowStatus) (o : Option Account)
      → ((u : Account) → o ≡ some u → first (λ a. a.id == id) users ≡ some u)
      → IsKept users (put_status crypto env admin status o (users, logs)).0.0
  unfolding put_status
  put_status-IsKept id status none read = same-IsKept users kept
  put_status-IsKept id status (some u) read = elim (Bool-cases (is_platform u)) [
    | inl platform ↦ rw platform (same-IsKept users kept)
    | inr other ↦ elim (Bool-cases env.refusals.writing) [
      | inl refused ↦ rw (other, refused) (same-IsKept users kept)
      | inr made ↦
          rw (other, made)
            (write-IsKept users kept u id _ (read u refl) other (λ a. refl)
              (Unique-update _ _ users (λ a. refl) (λ a. refl) kept))
    ]
  ]

  changed-Unique :
      (id : ℕ) (c : Changes) (o : Option String)
      → c.new_email ≡ o
      → is_taken id o users ≡ false
      → HasUniqueAccounts (update (λ a. a.id == id) (changed c) users)
  changed-Unique id c none h free = Unique-update _ _ users (λ a. refl) (λ a. rw h refl) kept
  changed-Unique id c (some e) h free =
      address-Unique id e _ users (λ a. rw h refl) (λ a. refl) (ground arith) kept

  write_changes-IsKept :
      (id : ℕ) (u : Account) (c : Changes)
      → first (λ a. a.id == id) users ≡ some u
      → is_platform u ≡ false
      → IsKept users (write_changes crypto env admin u c (users, logs)).0.0
  unfolding write_changes
  write_changes-IsKept id u c read other =
      let same = same-IsKept users kept in
      elim (Bool-cases (is_taken u.id c.new_email users)) [
        | inl taken ↦ ground arith
        | inr free ↦
            let written =
              write-IsKept users kept u id (changed c) read other (λ a. refl)
                (changed-Unique u.id c c.new_email refl free) in
            ground arith
      ]

  with_password-IsKept :
      (id : ℕ) (u : Account) (email nickname : Option String) (a : Answer (Option String))
      → first (λ a. a.id == id) users ≡ some u
      → is_platform u ≡ false
      → IsKept users (with_password crypto env admin u email nickname a (users, logs)).0.0
  unfolding with_password
  with_password-IsKept id u email nickname (ok hash) read other =
      write_changes-IsKept id u _ read other
  with_password-IsKept id u email nickname bad_request read other = same-IsKept users kept
  with_password-IsKept id u email nickname unauthorized read other = same-IsKept users kept
  with_password-IsKept id u email nickname forbidden read other = same-IsKept users kept
  with_password-IsKept id u email nickname not_found read other = same-IsKept users kept
  with_password-IsKept id u email nickname conflict read other = same-IsKept users kept
  with_password-IsKept id u email nickname too_many_requests read other = same-IsKept users kept
  with_password-IsKept id u email nickname server_error read other = same-IsKept users kept

  with_email-IsKept :
      (id : ℕ) (u : Account) (nickname password : String) (a : Answer (Option String))
      → first (λ a. a.id == id) users ≡ some u
      → is_platform u ≡ false
      → IsKept users (with_email crypto env admin u nickname password a (users, logs)).0.0
  unfolding with_email
  with_email-IsKept id u nickname password (ok email) read other =
      with_password-IsKept id u email _ _ read other
  with_email-IsKept id u nickname password bad_request read other = same-IsKept users kept
  with_email-IsKept id u nickname password unauthorized read other = same-IsKept users kept
  with_email-IsKept id u nickname password forbidden read other = same-IsKept users kept
  with_email-IsKept id u nickname password not_found read other = same-IsKept users kept
  with_email-IsKept id u nickname password conflict read other = same-IsKept users kept
  with_email-IsKept id u nickname password too_many_requests read other = same-IsKept users kept
  with_email-IsKept id u nickname password server_error read other = same-IsKept users kept

  edit_user-IsKept :
      (id : ℕ) (email nickname password : String) (o : Option Account)
      → ((u : Account) → o ≡ some u → first (λ a. a.id == id) users ≡ some u)
      → IsKept users (edit_user crypto env admin id email nickname password o (users, logs)).0.0
  unfolding edit_user
  edit_user-IsKept id email nickname password none read = same-IsKept users kept
  edit_user-IsKept id email nickname password (some u) read = elim (Bool-cases (is_platform u)) [
    | inl platform ↦ rw platform (same-IsKept users kept)
    | inr other ↦ rw other (with_email-IsKept id u nickname password _ (read u refl) other)
  ]

-- No call of an administrator on the users gives two of them one key or one address, or changes,
-- makes or removes a user with the role of a platform administrator. The database gives a new row a
-- fresh key.
pub user_call-IsKept :
    (crypto : Crypto) (env : AccountEnv) (admin : Option Account) (c : UserCall) (users : Table)
    (logs : List AuditLog)
    → IsNew c users
    → HasUniqueAccounts users
    → IsKept users (user_call crypto env admin c (users, logs)).0
unfolding user_call
user_call-IsKept crypto env admin (create id email password nickname) users logs fresh kept =
    create_user-IsKept crypto env admin users logs kept id email password nickname fresh
user_call-IsKept crypto env admin (put_state id status) users logs fresh kept =
    unfold set_user_status in
    let same = same-IsKept users kept in
    let put =
      put_status-IsKept crypto env admin users logs kept id status
        (find_row env.refusals.finding id users)
        (λ u e. read_first env.refusals.finding (λ a. a.id == id) users u e) in
    ground arith
user_call-IsKept crypto env admin (edit id email nickname password) users logs fresh kept =
    unfold update_user in
    edit_user-IsKept crypto env admin users logs kept id email nickname password _
      (λ u e. read_first env.refusals.finding (λ a. a.id == id) users u e)
