-- ===== src/Api/Admins/Raced.antt =====
-- Two calls of SetAdminStatus at one time.
use axmi_pusher.Base.{
  ℕ, [], ◌∷◌, false, inr, ◌≡◌, refl, ◌==◌, ◌&&◌, ◌||◌, not, count, update, arith, nat_eq,
}
use axmi_pusher.Models.{disabled, is_active}
use axmi_pusher.Accounts.{Account, Table}
use axmi_pusher.Accounts.Profile.{Refusals}
use axmi_pusher.Accounts.Admins.{check_status, written_status}
use axmi_pusher.Api.Admins.Super.{check_status-target}

abbrev disabled_row : Account → Account
disabled_row r = record r { status = disabled }

-- The active rows other than two.
abbrev pub others_active : ℕ → ℕ → Table → ℕ
others_active a b rows = count (λ r. is_active r.status && not (r.id == a || r.id == b)) rows

both_disabled :
    (a b : ℕ) (rows : Table)
    → count
        (λ r. is_active r.status)
        (update (λ r. r.id == a) disabled_row (update (λ r. r.id == b) disabled_row rows))
      ≡ others_active a b rows
both_disabled a b [] = refl
both_disabled a b (r ∷ rows) = ground (arith, both_disabled a b rows)

-- The checks of SetAdminStatus and its write are statements of their own. If two administrators
-- disable each other, and both checks pass before either write is made, exactly the other active
-- administrators remain active: none at all, if these two were the last ones.
pub disable_each_other :
    (env env' : Refusals) (a b first_key second_key : ℕ) (rows : Table)
    → env.writing ≡ false
    → env'.writing ≡ false
    → check_status env a b disabled rows ≡ inr first_key
    → check_status env' b a disabled rows ≡ inr second_key
    → count
        (λ r. is_active r.status)
        (written_status env' disabled
          (written_status env disabled rows (inr first_key)).0
          (inr second_key)).0
      ≡ others_active a b rows
unfolding written_status
disable_each_other env env' a b first_key second_key rows made made' checked checked' =
    rw
      (
        made,
        made',
        (check_status-target env a b first_key rows checked).0,
        (check_status-target env' b a second_key rows checked').0,
      )
      (both_disabled a b rows)
