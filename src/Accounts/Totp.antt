-- ===== src/Accounts/Totp.antt =====
-- The two-step verification: SetupTotp, ConfirmTotp and DisableTotp on the table that `isAdmin`
-- selects, with totpEntity, which reads a row, and saveTotp, which writes it.
use axmi_pusher.Base.{
  ℕ, String, Bool, Option, true, false, some, none, first, update, ◌==◌, if◌then◌else◌, not, nat_eq,
  string_eq,
}
use axmi_pusher.Accounts.{
  Account, Table, Crypto, AuthError, refused, totp_is_on, totp_is_off, totp_no_secret, totp_failed,
  totp_invalid,
}

-- totpEntity
unfoldable pub totp_entity : Bool → ℕ → Table → Option Account
totp_entity find_refused id rows = if find_refused then none else first (λ a. a.id == id) rows

-- saveTotp
unfoldable pub save_totp : Bool → ℕ → String → Bool → Table → Table × Option AuthError
save_totp write_refused id secret enabled rows = if write_refused then (rows, some refused) else (
  update (λ a. a.id == id) (λ a. record a { totp_secret = secret; totp_enabled = enabled }) rows,
  none,
)

module _ (find_refused write_refused : Bool) where
  -- SetupTotp: `generated` is the secret that the library makes, if it does; `drawn` says whether the
  -- picture of it can be made, which comes after the write.
  unfoldable pub setup_totp : Option String → Bool → ℕ → Table → Table × Option AuthError
  unfolding totp_entity save_totp
  setup_totp generated drawn id rows = elim (totp_entity find_refused id rows) [
    | none ↦ (rows, some refused)
    | some a ↦ if a.totp_enabled then (rows, some totp_is_on) else elim generated [
      | none ↦ (rows, some totp_failed)
      | some secret ↦
          let (rows', e) = save_totp write_refused id secret false rows in
          (rows', elim e [ some w ↦ some w | none ↦ if drawn then none else some totp_failed ])
    ]
  ]

module _ (crypto : Crypto) (find_refused write_refused : Bool) (now : ℕ) where
  -- ConfirmTotp
  unfoldable pub confirm_totp : ℕ → String → Table → Table × Option AuthError
  unfolding totp_entity save_totp
  confirm_totp id code rows = elim (totp_entity find_refused id rows) [
    | none ↦ (rows, some refused)
    | some a ↦
        if a.totp_enabled
        then (rows, some totp_is_on)
        else (if a.totp_secret == ""
            then (rows, some totp_no_secret)
            else (if not (crypto.validate code a.totp_secret now)
                then (rows, some totp_invalid)
                else save_totp write_refused id a.totp_secret true rows))
  ]

  -- DisableTotp
  unfoldable pub disable_totp : ℕ → String → Table → Table × Option AuthError
  unfolding totp_entity save_totp
  disable_totp id code rows = elim (totp_entity find_refused id rows) [
    | none ↦ (rows, some refused)
    | some a ↦
        if not a.totp_enabled
        then (rows, some totp_is_off)
        else (if not (crypto.validate code a.totp_secret now)
            then (rows, some totp_invalid)
            else save_totp write_refused id "" false rows)
  ]
