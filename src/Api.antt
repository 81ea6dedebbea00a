-- ===== src/Api.antt =====
-- internal/api: the middleware that says who asks (internal/api/middleware/auth.go), and the
-- handlers of the accounts (internal/api/handler). The decoding of a body and a path is gin's.
pub mod Auth
pub mod Sessions
pub mod Account
pub mod Admins
pub mod Inbox
pub mod AdminPath
pub mod Users
use axmi_pusher.Base.{String, Bool, ℕ, List, [], ◌∷◌, ◌++◌, if◌then◌else◌}

-- The answers of internal/pkg/response, by their status, with what a handler returns.
pub data Answer (A : Type 0) : Type 0 where
  ok : A → Answer A
  bad_request unauthorized forbidden not_found conflict too_many_requests server_error : Answer A

-- AuditLog, without its detail and the address of the caller.
pub record AuditLog : Type 0 where
  pub actor_id : ℕ
  pub actor_email : String
  pub action : String

-- Audit (internal/api/handler/audit.go): whether the row is written is not checked.
unfoldable pub audit : Bool → ℕ → String → String → List AuditLog → List AuditLog
audit refused actor email action logs =
    if refused
    then logs
    else logs ++ (record { actor_id = actor; actor_email = email; action = action } ∷ [])
