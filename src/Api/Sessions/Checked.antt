-- ===== src/Api/Sessions/Checked.antt =====
-- What the service has checked when a login succeeds.
use mathlib.Core.Path.{subst}
use axmi_pusher.Base.{sym, ℕ}
use axmi_pusher.Base.{inl, ◌⊎◌}
use axmi_pusher.Accounts.{AuthError}
use axmi_pusher.Models.{is_active}
use axmi_pusher.Accounts.Tokens.{holder, if_active}
use axmi_pusher.Base.{nat_beq_iff, first_passes}
use axmi_pusher.Base.{
  ℕ, String, Text, Bool, Option, true, some, none, inr, ◌≡◌, refl, if◌then◌else◌, first, ◌==◌,
  nat_eq, string_eq, arith, read_first,
}
use axmi_pusher.Accounts.{
  Account, Table, Crypto, JwtClaims, TokenKind, user_token, admin_token, pending_token,
}
use axmi_pusher.Accounts.Login.{login, login_totp, login_found, login_totp_found}
use axmi_pusher.Accounts.Tokens.{parse_totp_pending_token, of_kind, second_step_of, same_kind}

-- What a step of a login that succeeds has found: the row, and what was checked.
pub record Found (checked : Account → Bool) (p : Account → Bool) (rows : Table) (u : Account)
    : Type 0 where
  pub row : Account
  pub read : first p rows ≡ some row
  pub right : checked row ≡ true
  pub same_id : u.id ≡ row.id
  pub same_step : u.totp_enabled ≡ row.totp_enabled

module _ (crypto : Crypto) (find_refused write_refused : Bool) (now : ℕ) where
  pub login-Found :
      (email secret ip : String) (rows : Table) (u : Account)
      → (login crypto find_refused write_refused now email secret ip rows).1 ≡ inr u
      → Found (λ a. crypto.compare a.password_hash secret) (λ a. a.email == email) rows u
  unfolding login
  login-Found email secret ip rows u h =
      split (if find_refused then none else first (λ a. a.email == email) rows) refl h
    where
      split :
          (o : Option Account)
          → (if find_refused then none else first (λ a. a.email == email) rows) ≡ o
          → (login_found crypto find_refused write_refused now secret ip rows o).1 ≡ inr u
          → Found (λ a. crypto.compare a.password_hash secret) (λ a. a.email == email) rows u
      split none e k = cc
      split (some a) e k = record {
        row = a;
        read = read_first find_refused (λ a. a.email == email) rows a e;
        right = ground arith;
        same_id = ground arith;
        same_step = ground arith;
      }

  pub login_totp-Found :
      (id : ℕ) (digits ip : String) (rows : Table) (u : Account)
      → (login_totp crypto find_refused write_refused now id digits ip rows).1 ≡ inr u
      → Found (λ a. crypto.validate digits a.totp_secret now) (λ a. a.id == id) rows u
  unfolding login_totp
  login_totp-Found id digits ip rows u h =
      split (if find_refused then none else first (λ a. a.id == id) rows) refl h
    where
      split :
          (o : Option Account)
          → (if find_refused then none else first (λ a. a.id == id) rows) ≡ o
          → (login_totp_found crypto find_refused write_refused now digits ip rows o).1 ≡ inr u
          → Found (λ a. crypto.validate digits a.totp_secret now) (λ a. a.id == id) rows u
      split none e k = cc
      split (some a) e k = record {
        row = a;
        read = read_first find_refused (λ a. a.id == id) rows a e;
        right = ground arith;
        same_id = ground arith;
        same_step = ground arith;
      }

-- The claims of a token for the second step.
pub record Pending (crypto : Crypto) (now : ℕ) (token : Text) (id : ℕ) (is_admin : Bool)
    : Type 0 where
  pub claims : JwtClaims
  pub verified : crypto.verify token now ≡ some claims
  pub kind : claims.kind ≡ pending_token
  pub user : id ≡ claims.user_id
  pub role : is_admin ≡ (claims.role == "admin")

-- What the holder of a token of a kind is: an active row of the table.
pub record Holder (crypto : Crypto) (now : ℕ) (wanted : TokenKind) (token : Text) (rows : Table)
    (u : Account) : Type 0 where
  pub claims : JwtClaims
  pub verified : crypto.verify token now ≡ some claims
  pub kind : claims.kind ≡ wanted
  pub user : u.id ≡ claims.user_id
  pub active : is_active u.status ≡ true
  pub read : first (λ a. a.id == u.id) rows ≡ some u

kinds_agree : (j k : TokenKind) → same_kind j k ≡ true → j ≡ k
kinds_agree user_token user_token h = refl
kinds_agree admin_token admin_token h = refl
kinds_agree pending_token pending_token h = refl
kinds_agree user_token admin_token h = cc
kinds_agree user_token pending_token h = cc
kinds_agree admin_token user_token h = cc
kinds_agree admin_token pending_token h = cc
kinds_agree pending_token user_token h = cc
kinds_agree pending_token admin_token h = cc

module _ (crypto : Crypto) (now : ℕ) where
  pub parse-Pending :
      (token : Text) (id : ℕ) (is_admin : Bool)
      → parse_totp_pending_token crypto now token ≡ inr (id, is_admin)
      → Pending crypto now token id is_admin
  unfolding parse_totp_pending_token
  parse-Pending token id is_admin h = split (crypto.verify token now) refl h
    where
      split :
          (o : Option JwtClaims)
          → crypto.verify token now ≡ o
          → second_step_of crypto now (of_kind crypto now pending_token o) ≡ inr (id, is_admin)
          → Pending crypto now token id is_admin
      split none e k = cc
      split (some c) e k = record {
        claims = c;
        verified = e;
        kind = kinds_agree c.kind pending_token (ground arith);
        user = ground arith;
        role = ground arith;
      }

  of_kind-Verified :
      (kind : TokenKind) (token : Text) (c : JwtClaims)
      → of_kind crypto now kind (crypto.verify token now) ≡ inr c
      → (crypto.verify token now ≡ some c) × (c.kind ≡ kind)
  unfolding of_kind
  of_kind-Verified kind token c h = split (crypto.verify token now) refl h
    where
      split :
          (o : Option JwtClaims)
          → crypto.verify token now ≡ o
          → of_kind crypto now kind o ≡ inr c
          → (crypto.verify token now ≡ some c) × (c.kind ≡ kind)
      split none e k = cc
      split (some d) e k =
          let same : (d ≡ c) × (same_kind d.kind kind ≡ true) = ground arith in
          (rw (← same.0) e, rw (← same.0) (kinds_agree d.kind kind same.1))

  pub holder-Holder :
      (find_refused : Bool) (kind : TokenKind) (token : Text) (rows : Table) (u : Account)
      → holder crypto now find_refused rows (of_kind crypto now kind (crypto.verify token now))
        ≡ inr u
      → Holder crypto now kind token rows u
  unfolding holder
  holder-Holder find_refused kind token rows u h =
      split (of_kind crypto now kind (crypto.verify token now)) refl h
    where
      active_row :
          (c : JwtClaims) (o : Option Account)
          → (if find_refused then none else first (λ a. a.id == c.user_id) rows) ≡ o
          → if_active crypto now o ≡ inr u
          → (u.id ≡ c.user_id)
            × (is_active u.status ≡ true)
            × (first (λ r. r.id == u.id) rows ≡ some u)
      active_row c none e k = cc
      active_row c (some a) e k =
          let (same, alive) : (a ≡ u) × (is_active a.status ≡ true) = ground arith in
          let row = read_first find_refused (λ a. a.id == c.user_id) rows a e in
          let key : a.id ≡ c.user_id =
            (nat_beq_iff a.id c.user_id).0 (first_passes (λ a. a.id == c.user_id) rows a row) in
          rw (← same) (key, alive, subst (λ k. first (λ r. r.id == k) rows ≡ some a) (sym key) row)

      split :
          (r : AuthError ⊎ JwtClaims)
          → of_kind crypto now kind (crypto.verify token now) ≡ r
          → holder crypto now find_refused rows r ≡ inr u
          → Holder crypto now kind token rows u
      split (inl e) q k = cc
      split (inr c) q k =
          let v = of_kind-Verified kind token c q in
          let found = active_row c _ refl k in
          record {
            claims = c;
            verified = v.0;
            kind = v.1;
            user = found.0;
            active = found.1;
            read = found.2;
          }
