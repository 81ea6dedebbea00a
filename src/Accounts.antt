-- ===== src/Accounts.antt =====
-- internal/service/auth.go: the accounts of users and administrators, two tables of one shape, and
-- the API keys. What bcrypt, TOTP, SHA-256 and JWT answer is an interface.
pub mod Login
pub mod Totp
pub mod Tokens
pub mod Profile
pub mod Admins
pub mod Register
pub mod Keys
pub mod Calls
use axmi_pusher.Base.{
  Text, ℕ, String, Bool, Option, List, true, false, ◌⊎◌, ltb, ◌+◌, length, if◌then◌else◌,
}
use axmi_pusher.Base.Keys.{codes}
use axmi_pusher.Models.{RowStatus}

-- User, and Admin, which has no quota and no plan.
pub record Account : Type 0 where
  pub id : ℕ
  pub email : String
  pub password_hash : String
  pub nickname : String
  pub quota : String
  pub plan_id : ℕ
  pub role : String
  pub status : RowStatus
  pub qq : String
  pub last_login_ip : String
  pub totp_secret : String
  pub totp_enabled : Bool
  pub last_login_at : Option ℕ

-- APIKey
pub record ApiKey : Type 0 where
  pub id : ℕ
  pub tenant_id : ℕ
  pub name : String
  pub key_prefix : Text
  pub key_hash : String
  pub scopes : String
  pub status : RowStatus
  pub expires_at : Option ℕ
  pub last_used_at : Option ℕ

abbrev pub Table : Type 0
Table = List Account

abbrev pub role_tenant_admin : String
role_tenant_admin = "tenant_admin"

abbrev pub role_tenant_user : String
role_tenant_user = "tenant_user"

abbrev pub role_platform_admin : String
role_platform_admin = "platform_admin"

abbrev pub admin_role_super : String
admin_role_super = "super_admin"

abbrev pub admin_role_normal : String
admin_role_normal = "admin"

-- The `kind` of a token.
pub data TokenKind : Type 0 where
  user_token admin_token pending_token : TokenKind

-- jwtClaims, with the times of RegisteredClaims; nothing reads its issuer and its subject.
pub record JwtClaims : Type 0 where
  pub user_id : ℕ
  pub tenant_id : ℕ
  pub role : String
  pub kind : TokenKind
  pub expires_at : ℕ
  pub issued_at : ℕ

pub data AuthError : Type 0 where
  email_exists bad_credential user_disabled bad_old_pass bad_code : AuthError
  code_too_frequent smtp_not_configured mail_failed short_password refused : AuthError
  hash_failed wrong_kind token_invalid sign_failed key_expired : AuthError
  totp_is_on totp_is_off totp_no_secret totp_failed totp_invalid : AuthError
  own_account no_such_admin last_admin store_failed : AuthError

-- The third-party functions that the service calls. A hash is made with a salt and may fail; a code
-- is checked against a secret at a time; a token, a text, is signed and verified with the secret of the
-- service, at a time.
pub record Crypto : Type 0 where
  pub generate : ℕ → String → Option String
  pub compare : String → String → Bool
  pub digest : Text → String
  pub validate : String → String → ℕ → Bool
  pub sign : JwtClaims → Option Text
  pub verify : Text → ℕ → Option JwtClaims

-- The number of bytes of a text in UTF-8: the `len` of Go.
abbrev pub code_length : ℕ → ℕ
code_length c = if ltb c 128 then 1 else (if ltb c 2048 then 2 else (if ltb c 65536 then 3 else 4))

unfoldable pub byte_length : List ℕ → ℕ
byte_length List.[] = 0
byte_length (List.◌∷◌ c s) = code_length c + byte_length s

-- validatePassword
unfoldable pub is_long_enough : String → Bool
unfolding byte_length
is_long_enough p = if ltb (byte_length (codes p)) 8 then false else true
