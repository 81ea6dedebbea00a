-- ===== src/Accounts/Profile.antt =====
-- UpdateProfile, ChangeEmail and ChangePassword, and their twins for administrators, on the table.
use axmi_pusher.Base.{
  ℕ, String, Bool, Option, some, none, inl, inr, ◌⊎◌, first, update, count, ◌==◌, if◌then◌else◌,
  not, ◌&&◌, nat_eq, string_eq,
}
use axmi_pusher.Accounts.{
  Account, Table, Crypto, AuthError, refused, email_exists, short_password, bad_old_pass,
  hash_failed, is_long_enough,
}

-- The refusals of the statements of one call, in their order.
pub record Refusals : Type 0 where
  pub counting : Bool
  pub finding : Bool
  pub writing : Bool
  pub reading : Bool

abbrev pub find_row : Bool → ℕ → Table → Option Account
find_row find_refused id rows = if find_refused then none else first (λ a. a.id == id) rows

-- The row that is read again after a write.
abbrev read_again : Bool → ℕ → Table → AuthError ⊎ Account
read_again find_refused id rows = elim (find_row find_refused id rows) [
  | none ↦ inl refused
  | some a ↦ inr a
]

unfoldable pub profile_of :
    Refusals → ℕ → String → String → Table → Option Account → Table × (AuthError ⊎ Account)
profile_of env id nickname qq rows none = (rows, inl refused)
profile_of env id nickname qq rows (some u) =
    let rows' : Table =
      update (λ a. a.id == u.id)
        (λ a. record a { nickname = if nickname == "" then a.nickname else nickname; qq = qq })
        rows in
    if env.writing then (rows, inl refused) else (rows', read_again env.reading id rows')

-- UpdateProfile: an empty nickname is kept as it was, an empty QQ number is written.
unfoldable pub update_profile :
    Refusals → ℕ → String → String → Table → Table × (AuthError ⊎ Account)
unfolding profile_of
update_profile env id nickname qq rows =
    profile_of env id nickname qq rows (find_row env.finding id rows)

unfoldable pub email_of :
    Refusals → ℕ → String → Table → Option Account → Table × (AuthError ⊎ Account)
email_of env id email rows none = (rows, inl refused)
email_of env id email rows (some u) =
    let rows' : Table = update (λ a. a.id == u.id) (λ a. record a { email = email }) rows in
    if env.writing then (rows, inl refused) else (rows', read_again env.reading id rows')

-- ChangeEmail
unfoldable pub change_email : Refusals → ℕ → String → Table → Table × (AuthError ⊎ Account)
unfolding email_of
change_email env id email rows =
    if env.counting
    then (rows, inl refused)
    else (if not (count (λ a. a.email == email && not (a.id == id)) rows == 0)
        then (rows, inl email_exists)
        else email_of env id email rows (find_row env.finding id rows))

-- Update("password_hash", …)
abbrev pub write_hash : Bool → ℕ → String → Table → Table × Option AuthError
write_hash write_refused id hash rows =
    if write_refused
    then (rows, some refused)
    else (update (λ a. a.id == id) (λ a. record a { password_hash = hash }) rows, none)

module _ (crypto : Crypto) where
  -- The hash that bcrypt makes with a salt, written to a row.
  abbrev pub set_password : Bool → ℕ → ℕ → String → Table → Table × Option AuthError
  set_password write_refused salt id password rows = elim (crypto.generate salt password) [
    | none ↦ (rows, some hash_failed)
    | some hash ↦ write_hash write_refused id hash rows
  ]

  -- ChangePassword: the same password again is a success that writes nothing.
  unfoldable pub change_password :
      Refusals → ℕ → ℕ → String → String → Table → Table × Option AuthError
  change_password env salt id old new rows =
      if not (is_long_enough new)
      then (rows, some short_password)
      else elim (find_row env.finding id rows) [
        | none ↦ (rows, some refused)
        | some u ↦
            if not (crypto.compare u.password_hash old)
            then (rows, some bad_old_pass)
            else (if old == new then (rows, none) else set_password env.writing salt u.id new rows)
      ]
