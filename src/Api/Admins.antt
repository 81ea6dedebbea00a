-- ===== src/Api/Admins.antt =====
-- internal/api/handler/admin_admins.go, and the routes below /api/v1/admin that change the table of
-- the administrators (internal/api/router.go).
pub mod Routes
pub mod Super
pub mod Kept
pub mod Entered
pub mod Raced
pub mod Pages
use axmi_pusher.Base.{
  ℕ, String, Bool, Option, List, some, none, inl, inr, if◌then◌else◌, ltb, ◌+◌, ◌*◌, ◌-◌, ◌%◌, ◌^◌,
  length, take, drop,
}
use axmi_pusher.Base.Int.{ℤ, pos, negsuc, of_bits}
use axmi_pusher.Base.Paging.{page_of, size_of}
use axmi_pusher.Base.{◌||◌}
use axmi_pusher.Models.{is_active, is_disabled, RowStatus}
use axmi_pusher.Accounts.{Account, Table, Crypto, AuthError, email_exists}
use axmi_pusher.Accounts.Admins.{list_admins, create_admin, set_admin_status, reset_admin_password}
use axmi_pusher.Base.{none}
use axmi_pusher.Api.{unauthorized}
use axmi_pusher.Api.{Answer, ok, bad_request, conflict, server_error, AuditLog, audit}
use axmi_pusher.Api.Account.{AccountEnv, Logged}

-- admins[start:end] with start and end cut to the length; `none` is the panic of Go at a negative
-- start.
unfoldable pub cut_at {ℓ} : {A : Type ℓ} → ℕ → ℤ → List A → Option (List A)
cut_at k (negsuc n) rows = none
cut_at k (pos n) rows =
    let start = if ltb (length rows) n then length rows else n in
    let end = if ltb (length rows) (start + k) then length rows else start + k in
    some (take (end - start) (drop start rows))

-- The start is a product of two int64.
unfoldable pub cut {ℓ} : {A : Type ℓ} → ℤ → ℤ → List A → Option (List A)
unfolding cut_at
cut page size rows =
    cut_at (size_of size) (of_bits ((page_of page - 1) * size_of size % 2 ^ 64)) rows

-- ListAdmins: `none` is a panic, which gin.Recovery answers.
unfoldable pub list_admins_handler : Bool → ℤ → ℤ → Table → Option (Answer (Table × ℕ))
list_admins_handler find_refused page size admins = elim (list_admins find_refused admins) [
  | none ↦ some server_error
  | some rows ↦ elim (cut page size rows) [
    | none ↦ none
    | some slice ↦ some (ok (slice, length rows))
  ]
]

module _ (crypto : Crypto) (env : AccountEnv) where
  abbrev create_failed : AuthError → Answer Account
  create_failed email_exists = conflict
  create_failed _ = bad_request

  -- CreateAdmin; `id` is the key that the database gives. With nobody in the context it would panic
  -- after the row is made.
  unfoldable pub create_admin_handler :
      Option Account → ℕ → String → String → String → Logged → Logged × Answer Account
  create_admin_handler none id email password nickname (admins, logs) = (
    ((create_admin crypto env.refusals env.salt id email password nickname admins).0, logs),
    server_error,
  )
  create_admin_handler (some actor) id email password nickname (admins, logs) =
      let (admins', made) =
        create_admin crypto env.refusals env.salt id email password nickname admins in
      elim made [
        | inl e ↦ ((admins', logs), create_failed e)
        | inr a ↦
            ((admins', audit env.audit_refused actor.id actor.email "admin.create" logs), ok a)
      ]

  abbrev audited :
      Account → String → List AuditLog → Table × Option AuthError → Logged × Answer (Unit {0})
  audited actor action logs (admins, none) =
      ((admins, audit env.audit_refused actor.id actor.email action logs), ok tt)
  audited actor action logs (admins, some e) = ((admins, logs), bad_request)

  -- SetAdminStatus; the binding lets two states through.
  unfoldable pub set_admin_status_handler :
      Option Account → ℕ → RowStatus → Logged → Logged × Answer (Unit {0})
  set_admin_status_handler none target status logged = (logged, unauthorized)
  set_admin_status_handler (some actor) target status (admins, logs) =
      if is_active status || is_disabled status
      then audited actor "admin.set_status" logs
          (set_admin_status env.refusals actor.id target status admins)
      else ((admins, logs), bad_request)

  -- ResetAdminPassword
  unfoldable pub reset_admin_password_handler :
      Option Account → ℕ → String → Logged → Logged × Answer (Unit {0})
  reset_admin_password_handler none id password logged = (logged, unauthorized)
  reset_admin_password_handler (some actor) id password (admins, logs) =
      audited actor "admin.reset_password" logs
        (reset_admin_password crypto env.refusals env.salt id password admins)
