-- ===== src/Api/Admins/Super.antt =====
-- An active super administrator remains, whatever requests come.
use axmi_pusher.Base.{
  ℕ, String, Bool, Option, [], ◌∷◌, true, false, some, none, inl, inr, ◌⊎◌, ◌≡◌, refl, first, count,
  update, ◌==◌, ◌&&◌, ◌||◌, ◌≤◌, nat_eq, string_eq, arith, Bool-cases, read_first, first_passes,
  nat_beq_iff, count-update_same, count-append,
}
use axmi_pusher.Models.{RowStatus, active, disabled, is_active, is_disabled, pending}
use axmi_pusher.Accounts.{Account, Table, Crypto, AuthError, admin_role_super}
use axmi_pusher.Accounts.Login.{login_found, login_totp_found, logged_in, note_login}
use axmi_pusher.Accounts.Profile.{find_row, Refusals, update_profile, change_email, change_password}
use axmi_pusher.Accounts.Totp.{setup_totp, confirm_totp, disable_totp}
use axmi_pusher.Accounts.Admins.{
  create_admin, set_admin_status, check_status, checked_status, written_status,
  reset_admin_password,
}

abbrev pub is_super : Account → Bool
is_super a = is_active a.status && a.role == admin_role_super

abbrev pub supers : Table → ℕ
supers rows = count is_super rows

-- A write that leaves the roles and the states alone.
supers-update :
    (q : Account → Bool) (f : Account → Account) (rows : Table)
    → ((a : Account) → is_super (f a) ≡ is_super a)
    → supers (update q f rows) ≡ supers rows
supers-update q f rows h = count-update_same is_super q f rows h

module _ (crypto : Crypto) (find_refused write_refused : Bool) (now : ℕ) (ip : String)
    (rows : Table) where
  pub login_found-supers :
      (secret : String) (o : Option Account)
      → supers (login_found crypto find_refused write_refused now secret ip rows o).0 ≡ supers rows
  unfolding login_found note_login
  login_found-supers secret none = refl
  login_found-supers secret (some a) =
      ground (arith, supers-update (λ r. r.id == a.id) (logged_in now ip) rows (λ b. refl))

  pub login_totp_found-supers :
      (digits : String) (o : Option Account)
      → supers (login_totp_found crypto find_refused write_refused now digits ip rows o).0
        ≡ supers rows
  unfolding login_totp_found note_login
  login_totp_found-supers digits none = refl
  login_totp_found-supers digits (some a) =
      ground (arith, supers-update (λ r. r.id == a.id) (logged_in now ip) rows (λ b. refl))

module _ (env : Refusals) (id : ℕ) (rows : Table) where
  pub update_profile-supers :
      (nickname qq : String) → supers (update_profile env id nickname qq rows).0 ≡ supers rows
  unfolding update_profile
  update_profile-supers nickname qq = grind (arith, supers-update)

  pub change_email-supers :
      (email : String) → supers (change_email env id email rows).0 ≡ supers rows
  unfolding change_email
  change_email-supers email = grind (arith, supers-update)

  pub setup_totp-supers :
      (generated : Option String) (drawn find_refused write_refused : Bool)
      → supers (setup_totp find_refused write_refused generated drawn id rows).0 ≡ supers rows
  unfolding setup_totp
  setup_totp-supers generated drawn find_refused write_refused = grind (arith, supers-update)

module _ (crypto : Crypto) (env : Refusals) (salt id : ℕ) (rows : Table) where
  pub change_password-supers :
      (old new : String) → supers (change_password crypto env salt id old new rows).0 ≡ supers rows
  unfolding change_password
  change_password-supers old new = grind (arith, supers-update)

  pub reset_admin_password-supers :
      (new : String) → supers (reset_admin_password crypto env salt id new rows).0 ≡ supers rows
  unfolding reset_admin_password
  reset_admin_password-supers new = grind (arith, supers-update)

  pub create_admin-supers :
      (email password nickname : String)
      → supers rows ≤ supers (create_admin crypto env salt id email password nickname rows).0
  unfolding create_admin
  create_admin-supers email password nickname = grind (arith, count-append)

module _ (crypto : Crypto) (find_refused write_refused : Bool) (now id : ℕ) (digits : String)
    (rows : Table) where
  pub confirm_totp-supers :
      supers (confirm_totp crypto find_refused write_refused now id digits rows).0 ≡ supers rows
  unfolding confirm_totp
  confirm_totp-supers = grind (arith, supers-update)

  pub disable_totp-supers :
      supers (disable_totp crypto find_refused write_refused now id digits rows).0 ≡ supers rows
  unfolding disable_totp
  disable_totp-supers = grind (arith, supers-update)

-- A super administrator whose row a write does not meet is still there.
super_elsewhere :
    (actor target : ℕ) (f : Account → Account) (rows : Table) (a : Account)
    → first (λ r. r.id == actor) rows ≡ some a
    → is_super a ≡ true
    → (target == actor) ≡ false
    → 1 ≤ supers (update (λ r. r.id == target) f rows)
super_elsewhere actor target f [] a read super differ = cc
super_elsewhere actor target f (r ∷ rows) a read super differ = ground (
  arith,
  super_elsewhere actor target f rows a,
  nat_beq_iff r.id actor,
  nat_beq_iff r.id target,
  nat_beq_iff target actor,
)

-- Making a row active takes no super administrator away.
supers-activate :
    (q : Account → Bool) (rows : Table)
    → supers rows ≤ supers (update q (λ a. record a { status = active }) rows)
supers-activate q [] = omega arith
supers-activate q (r ∷ rows) = ground (arith, supers-activate q rows)

-- What the checks of a disabling have found.
pub check_status-target :
    (env : Refusals) (operator target id : ℕ) (rows : Table)
    → check_status env operator target disabled rows ≡ inr id
    → (id ≡ target) × ((target == operator) ≡ false)
unfolding check_status
check_status-target env operator target id rows h = elim (Bool-cases (target == operator)) [
  | inl own ↦ absurd (ground arith)
  | inr other ↦ (split (find_row env.finding target rows) refl (ground arith), other)
]
  where
    split :
        (o : Option Account)
        → find_row env.finding target rows ≡ o
        → checked_status env target disabled rows o ≡ inr id
        → id ≡ target
    split none e k = cc
    split (some a) e k =
        let row = read_first env.finding (λ r. r.id == target) rows a e in
        let same = (nat_beq_iff a.id target).0 (first_passes (λ r. r.id == target) rows a row) in
        ground arith

module _ (env : Refusals) (operator target : ℕ) (rows : Table) where
  pub enabled-supers :
      (r : AuthError ⊎ ℕ) → supers rows ≤ supers (written_status env active rows r).0
  unfolding written_status
  enabled-supers (inl e) = omega arith
  enabled-supers (inr id) = ground (arith, supers-activate (λ r. r.id == id) rows)

  pub disabled-supers :
      (a : Account)
      → first (λ r. r.id == operator) rows ≡ some a
      → is_super a ≡ true
      → 1 ≤ supers rows
      → (r : AuthError ⊎ ℕ) → check_status env operator target disabled rows ≡ r
      → 1 ≤ supers (written_status env disabled rows r).0
  unfolding written_status
  disabled-supers a read super left (inl e) h = left
  disabled-supers a read super left (inr id) h =
      let (same, other) = check_status-target env operator target id rows h in
      elim (Bool-cases env.writing) [
        | inl refused ↦ rw refused left
        | inr made ↦ rw (made, same) (super_elsewhere operator target _ rows a read super other)
      ]

  pub set_admin_status-supers :
      (status : RowStatus) (a : Account)
      → first (λ r. r.id == operator) rows ≡ some a
      → is_super a ≡ true
      → 1 ≤ supers rows
      → (is_active status || is_disabled status) ≡ true
      → 1 ≤ supers (set_admin_status env operator target status rows).0
  unfolding set_admin_status
  set_admin_status-supers active a read super left bound =
      omega (arith, enabled-supers (check_status env operator target active rows), left)
  set_admin_status-supers disabled a read super left bound =
      disabled-supers a read super left _ refl
  set_admin_status-supers pending a read super left bound = cc
