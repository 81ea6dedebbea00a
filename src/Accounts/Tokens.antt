-- ===== src/Accounts/Tokens.antt =====
-- The tokens: CreateToken, CreateAdminToken and CreateTotpPendingToken, and what parses them.
use axmi_pusher.Base.{
  Text, ℕ, Bool, Option, true, false, some, none, inl, inr, ◌⊎◌, first, ◌==◌, if◌then◌else◌, nat_eq,
  string_eq, ◌+◌, ◌*◌, ◌/◌,
}
use axmi_pusher.Models.{is_active}
use axmi_pusher.Accounts.{
  Text, Account, Table, Crypto, JwtClaims, AuthError, TokenKind, user_token, admin_token,
  pending_token, user_disabled, wrong_kind, token_invalid, refused,
}

-- jwt.NewNumericDate of a time in nanoseconds: whole seconds.
abbrev pub numeric_date : ℕ → ℕ
numeric_date t = t / 1000000000 * 1000000000

-- totpPendingTTL
abbrev pub totp_pending_ttl : ℕ
totp_pending_ttl = 300000000000

abbrev pub same_kind : TokenKind → TokenKind → Bool
same_kind user_token user_token = true
same_kind admin_token admin_token = true
same_kind pending_token pending_token = true
same_kind _ _ = false

unfoldable pub user_claims : ℕ → ℕ → Account → JwtClaims
user_claims now ttl a = record {
  user_id = a.id;
  tenant_id = a.id;
  role = a.role;
  kind = user_token;
  expires_at = numeric_date (now + ttl);
  issued_at = numeric_date now;
}

unfoldable pub admin_claims : ℕ → ℕ → Account → JwtClaims
admin_claims now ttl a = record {
  user_id = a.id;
  tenant_id = 0;
  role = a.role;
  kind = admin_token;
  expires_at = numeric_date (now + ttl);
  issued_at = numeric_date now;
}

unfoldable pub pending_claims : ℕ → ℕ → Bool → JwtClaims
pending_claims now id is_admin = record {
  user_id = id;
  tenant_id = 0;
  role = if is_admin then "admin" else "user";
  kind = pending_token;
  expires_at = numeric_date (now + totp_pending_ttl);
  issued_at = numeric_date now;
}

module _ (crypto : Crypto) (now : ℕ) where
  -- CreateToken
  unfoldable pub create_token : ℕ → Account → Option Text
  unfolding user_claims
  create_token ttl a = crypto.sign (user_claims now ttl a)

  -- CreateAdminToken
  unfoldable pub create_admin_token : ℕ → Account → Option Text
  unfolding admin_claims
  create_admin_token ttl a = crypto.sign (admin_claims now ttl a)

  -- CreateTotpPendingToken
  unfoldable pub create_totp_pending_token : ℕ → Bool → Option Text
  unfolding pending_claims
  create_totp_pending_token id is_admin = crypto.sign (pending_claims now id is_admin)

  -- parseJWT, and the test of the kind that follows it everywhere.
  unfoldable pub of_kind : TokenKind → Option JwtClaims → AuthError ⊎ JwtClaims
  of_kind kind none = inl token_invalid
  of_kind kind (some c) = if same_kind c.kind kind then inr c else inl wrong_kind

  unfoldable pub parse_kind : TokenKind → Text → AuthError ⊎ JwtClaims
  unfolding of_kind
  parse_kind kind token = of_kind kind (crypto.verify token now)

  unfoldable pub if_active : Option Account → AuthError ⊎ Account
  if_active none = inl refused
  if_active (some a) = if is_active a.status then inr a else inl user_disabled

  unfoldable pub holder : Bool → Table → AuthError ⊎ JwtClaims → AuthError ⊎ Account
  unfolding if_active
  holder find_refused rows (inl e) = inl e
  holder find_refused rows (inr c) =
      if_active (if find_refused then none else first (λ a. a.id == c.user_id) rows)

  -- ParseToken
  unfoldable pub parse_token : Bool → Text → Table → AuthError ⊎ Account
  unfolding parse_kind holder
  parse_token find_refused token users = holder find_refused users (parse_kind user_token token)

  -- ParseAdminToken
  unfoldable pub parse_admin_token : Bool → Text → Table → AuthError ⊎ Account
  unfolding parse_kind holder
  parse_admin_token find_refused token admins =
      holder find_refused admins (parse_kind admin_token token)

  unfoldable pub second_step_of : AuthError ⊎ JwtClaims → AuthError ⊎ (ℕ × Bool)
  second_step_of (inl e) = inl e
  second_step_of (inr c) = inr (c.user_id, c.role == "admin")

  -- ParseTotpPendingToken
  unfoldable pub parse_totp_pending_token : Text → AuthError ⊎ (ℕ × Bool)
  unfolding parse_kind second_step_of
  parse_totp_pending_token token = second_step_of (parse_kind pending_token token)
