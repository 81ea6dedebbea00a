-- ===== src/Api/Sessions/Steps.antt =====
-- A token that a request is answered with has its factors.
use axmi_pusher.Api.Sessions.Factors.{
  Proof, password, Factors, LoginRequest, first_step, second_step, World, tokens_of, Backed,
  session-Backed, pending-Backed, shows, handled, shows_password, shows_code,
}
use axmi_pusher.Base.{
  ℕ, String, Text, Bool, List, ◌++◌, true, false, some, none, inl, inr, ◌⊎◌, ◌≡◌, refl, ◌==◌,
  nat_eq, string_eq, All, Bool-cases, Listed, All-Listed, ◌≢◌, ap, sym, ◌∙◌,
}
use axmi_pusher.Accounts.{
  Account, Crypto, AuthError, JwtClaims, TokenKind, user_token, admin_token, pending_token,
}
use axmi_pusher.Accounts.Login.{login, login_totp}
use axmi_pusher.Accounts.Tokens.{
  user_claims, admin_claims, pending_claims, parse_totp_pending_token, create_token,
  create_admin_token, create_totp_pending_token,
}
use axmi_pusher.Api.Sessions.Checked.{Pending, login-Found, login_totp-Found, parse-Pending}
use axmi_pusher.Api.Sessions.{
  LoginEnv, login_user, login_totp_user, login_admin, login_totp_admin, granted_user, granted_admin,
  granted_session, granted_admin_session, second_step_user, second_step_admin,
}

-- A verified token holds the claims that it was signed with: what JWT is relied on for.
pub record HasJwt (crypto : Crypto) : Type 0 where
  pub carries :
      (c c' : JwtClaims) (t : Text) (now : ℕ)
      → crypto.sign c ≡ some t
      → crypto.verify t now ≡ some c'
      → c' ≡ c

-- Nobody else has the secret: a token that is verified was handed out.
abbrev pub IsKnown : Crypto → ℕ → LoginRequest → World → Type 0
IsKnown crypto now (first_step is_admin email secret) w = Unit
IsKnown crypto now (second_step is_admin token digits) w =
    crypto.verify token now ≢ none → Listed token w.issued

module _ (crypto : Crypto) (ttl : ℕ) (env : LoginEnv) (w : World) where
  user_password_Backed :
      (email secret : String) (r : AuthError ⊎ Account)
      → (login crypto env.find_refused env.write_refused env.now email secret env.ip w.users).1 ≡ r
      → All
          (Backed crypto (shows crypto ttl env (first_step false email secret) w ++ w.shown))
          (tokens_of (granted_user crypto ttl env r))
  unfolding granted_user create_totp_pending_token create_token
  user_password_Backed email secret (inl e) h = tt
  user_password_Backed email secret (inr u) h =
      let f =
        login-Found crypto env.find_refused env.write_refused env.now email secret env.ip w.users u
          h in
      let s = shows_password crypto ttl env false email secret w u f in
      elim (Bool-cases u.totp_enabled) [
        | inl two ↦
            simp (s, two)
              (pending-Backed crypto _ (pending_claims env.signing u.id false) _ refl (inl refl))
        | inr one ↦
            simp (s, one)
              (session-Backed crypto u _ (user_claims env.signing ttl u) _ refl (inl (inl refl)))
      ]

  admin_password_Backed :
      (email secret : String) (r : AuthError ⊎ Account)
      → (login crypto env.find_refused env.write_refused env.now email secret env.ip w.admins).1 ≡ r
      → All
          (Backed crypto (shows crypto ttl env (first_step true email secret) w ++ w.shown))
          (tokens_of (granted_admin crypto ttl env r))
  unfolding granted_admin create_totp_pending_token create_admin_token
  admin_password_Backed email secret (inl e) h = tt
  admin_password_Backed email secret (inr u) h =
      let f =
        login-Found crypto env.find_refused env.write_refused env.now email secret env.ip w.admins u
          h in
      let s = shows_password crypto ttl env true email secret w u f in
      elim (Bool-cases u.totp_enabled) [
        | inl two ↦
            simp (s, two)
              (pending-Backed crypto _ (pending_claims env.signing u.id true) _ refl (inl refl))
        | inr one ↦
            simp (s, one)
              (session-Backed crypto u _ (admin_claims env.signing ttl u) _ refl (inl (inl refl)))
      ]

pending-Factors :
    (k : TokenKind) (c : JwtClaims) (shown : List Proof)
    → k ≡ pending_token
    → Factors k c shown
    → Listed (password (c.role == "admin") c.user_id true) shown
pending-Factors user_token c shown e f = cc
pending-Factors admin_token c shown e f = cc
pending-Factors pending_token c shown e f = f

module _ (crypto : Crypto) (jwt : HasJwt crypto) (ttl : ℕ) (env : LoginEnv) (w : World)
    (backed : All (Backed crypto w.shown) w.issued) where
  -- The password behind a token of the second step.
  password_shown :
      (is_admin : Bool) (token : Text) (digits : String) (id : ℕ)
      → IsKnown crypto env.now (second_step is_admin token digits) w
      → Pending crypto env.now token id is_admin
      → Listed (password is_admin id true) w.shown
  password_shown is_admin token digits id known p =
      let listed : Listed token w.issued = known (rw p.verified (λ e. cc)) in
      let b = All-Listed (Backed crypto w.shown) w.issued token backed listed in
      let same : p.claims ≡ b.claims =
        jwt.carries b.claims p.claims token env.now b.signed p.verified in
      rw (p.user, p.role, same)
        (pending-Factors b.claims.kind b.claims w.shown (ap (λ c. c.kind) (sym same) ∙ p.kind)
          b.factors)

  user_code_Backed :
      (token : Text) (digits : String) (id : ℕ) (p : Pending crypto env.now token id false)
      → Listed (password false id true) w.shown
      → (r : AuthError ⊎ Account)
      → (login_totp crypto env.find_refused env.write_refused env.now id digits env.ip w.users).1
        ≡ r
      → All
          (Backed crypto (shows crypto ttl env (second_step false token digits) w ++ w.shown))
          (tokens_of (granted_session crypto ttl env r))
  unfolding granted_session create_token
  user_code_Backed token digits id p shown (inl e) h = tt
  user_code_Backed token digits id p shown (inr u) h =
      let f =
        login_totp-Found crypto env.find_refused env.write_refused env.now id digits env.ip w.users
          u h in
      let (s, same) = shows_code crypto ttl env false token digits w u id p f in
      let seen : Listed (password false u.id true) w.shown = rw same shown in
      simp (s) (
        session-Backed crypto u _ (user_claims env.signing ttl u) _ refl (inr (inr seen, inl refl)))

  admin_code_Backed :
      (token : Text) (digits : String) (id : ℕ) (p : Pending crypto env.now token id true)
      → Listed (password true id true) w.shown
      → (r : AuthError ⊎ Account)
      → (login_totp crypto env.find_refused env.write_refused env.now id digits env.ip w.admins).1
        ≡ r
      → All
          (Backed crypto (shows crypto ttl env (second_step true token digits) w ++ w.shown))
          (tokens_of (granted_admin_session crypto ttl env r))
  unfolding granted_admin_session create_admin_token
  admin_code_Backed token digits id p shown (inl e) h = tt
  admin_code_Backed token digits id p shown (inr u) h =
      let f =
        login_totp-Found crypto env.find_refused env.write_refused env.now id digits env.ip w.admins
          u h in
      let (s, same) = shows_code crypto ttl env true token digits w u id p f in
      let seen : Listed (password true u.id true) w.shown = rw same shown in
      simp (s) (
        session-Backed crypto u _ (admin_claims env.signing ttl u) _ refl
          (inr (inr seen, inl refl)))

  second_user-Backed :
      (token : Text) (digits : String) (r : AuthError ⊎ (ℕ × Bool))
      → IsKnown crypto env.now (second_step false token digits) w
      → parse_totp_pending_token crypto env.now token ≡ r
      → All
          (Backed crypto (shows crypto ttl env (second_step false token digits) w ++ w.shown))
          (tokens_of (second_step_user crypto ttl env digits w.users r).1)
  unfolding second_step_user
  second_user-Backed token digits (inl e) known h = tt
  second_user-Backed token digits (inr (id, true)) known h = tt
  second_user-Backed token digits (inr (id, false)) known h =
      let p = parse-Pending crypto env.now token id false h in
      user_code_Backed token digits id p (password_shown false token digits id known p) _ refl

  second_admin-Backed :
      (token : Text) (digits : String) (r : AuthError ⊎ (ℕ × Bool))
      → IsKnown crypto env.now (second_step true token digits) w
      → parse_totp_pending_token crypto env.now token ≡ r
      → All
          (Backed crypto (shows crypto ttl env (second_step true token digits) w ++ w.shown))
          (tokens_of (second_step_admin crypto ttl env digits w.admins r).1)
  unfolding second_step_admin
  second_admin-Backed token digits (inl e) known h = tt
  second_admin-Backed token digits (inr (id, false)) known h = tt
  second_admin-Backed token digits (inr (id, true)) known h =
      let p = parse-Pending crypto env.now token id true h in
      admin_code_Backed token digits id p (password_shown true token digits id known p) _ refl

  pub handled-Backed :
      (r : LoginRequest)
      → IsKnown crypto env.now r w
      → All
          (Backed crypto (shows crypto ttl env r w ++ w.shown))
          (tokens_of (handled crypto ttl env r w).1)
  unfolding handled login_user login_admin login_totp_user login_totp_admin
  handled-Backed (first_step true email secret) known =
      admin_password_Backed crypto ttl env w email secret _ refl
  handled-Backed (first_step false email secret) known =
      user_password_Backed crypto ttl env w email secret _ refl
  handled-Backed (second_step true token digits) known =
      second_admin-Backed token digits _ known refl
  handled-Backed (second_step false token digits) known =
      second_user-Backed token digits _ known refl
