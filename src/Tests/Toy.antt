-- ===== src/Tests/Toy.antt =====
-- A toy of the cryptography, two administrators, and a database that refuses nothing.
use axmi_pusher.Base.Keys.{codes}
use axmi_pusher.Base.{
  ℕ, String, Text, Option, [], ◌∷◌, true, false, some, none, inl, inr, ◌≡◌, refl, arith, ◌==◌,
  if◌then◌else◌, leb, nat_eq, string_eq, text_eq, eq_iff, ◌≤◌, count,
}
use axmi_pusher.Models.{active}
use axmi_pusher.Api.Sessions.Steps.{HasJwt}
use axmi_pusher.Accounts.Profile.{Refusals}
use axmi_pusher.Base.{nat_beq_iff}
use axmi_pusher.Accounts.Calls.Rows.{HasUniqueAccounts}
use axmi_pusher.Api.Account.{AccountEnv}
use axmi_pusher.Base.{Bool-cases}
use mathlib.Core.Path.{subst}
use axmi_pusher.Accounts.{
  Account, Table, Crypto, JwtClaims, TokenKind, user_token, admin_token, pending_token,
}

abbrev kind_code : TokenKind → ℕ
kind_code user_token = 0
kind_code admin_token = 1
kind_code pending_token = 2

abbrev kind_of : ℕ → TokenKind
kind_of n = if n == 0 then user_token else (if n == 1 then admin_token else pending_token)

abbrev role_code : String → Option ℕ
role_code role =
    if role == "super_admin" then some 0 else (if role == "admin" then some 1 else none)

abbrev role_of : ℕ → String
role_of n = if n == 0 then "super_admin" else "admin"

abbrev encoded : JwtClaims → Option ℕ → Option Text
encoded c none = none
encoded c (some r) =
    some (c.user_id ∷ c.tenant_id ∷ kind_code c.kind ∷ r ∷ c.expires_at ∷ c.issued_at ∷ [])

abbrev decoded : ℕ → Text → Option JwtClaims
decoded now (u ∷ t ∷ k ∷ r ∷ e ∷ i ∷ []) =
    if leb e now
    then none
    else some (record {
      user_id = u;
      tenant_id = t;
      role = role_of r;
      kind = kind_of k;
      expires_at = e;
      issued_at = i;
    })
decoded now _ = none

-- A hash is the password itself, a code the secret, and a token the list of its claims.
abbrev pub toy : Crypto
toy = record {
  generate = λ salt p. some p;
  compare = λ hash p. hash == p;
  digest = λ plain. if plain == codes "ak_secret_text" then "digest" else "other";
  validate = λ digits secret now. digits == secret;
  sign = λ c. encoded c (role_code c.role);
  verify = λ t now. decoded now t;
}

kind_of-kind_code : (k : TokenKind) → kind_of (kind_code k) ≡ k
kind_of-kind_code user_token = refl
kind_of-kind_code admin_token = refl
kind_of-kind_code pending_token = refl

role_of-role_code : (s : String) (n : ℕ) → role_code s ≡ some n → role_of n ≡ s
role_of-role_code s n h = ground (arith, eq_iff s "super_admin", eq_iff s "admin")

decoded_claims :
    (c c' : JwtClaims) (r now : ℕ)
    → role_of r ≡ c.role
    → decoded now (c.user_id ∷ c.tenant_id ∷ kind_code c.kind ∷ r ∷ c.expires_at ∷ c.issued_at ∷ [])
      ≡ some c'
    → c' ≡ c
decoded_claims c c' r now role h = ground (arith, kind_of-kind_code c.kind)

carried :
    (c c' : JwtClaims) (o : Option ℕ) (t : Text) (now : ℕ)
    → role_code c.role ≡ o
    → encoded c o ≡ some t
    → decoded now t ≡ some c'
    → c' ≡ c
carried c c' none t now role h h' = cc
carried c c' (some r) t now role h h' =
    decoded_claims c c' r now (role_of-role_code c.role r role) (cc)

pub toy-HasJwt : HasJwt toy
toy-HasJwt = record { carries = λ c c' t now h h'. carried c c' (role_code c.role) t now refl h h' }

abbrev pub root : Account
root = record {
  id = 1;
  email = "root@x.org";
  password_hash = "a long password";
  nickname = "root";
  quota = "";
  plan_id = 0;
  role = "super_admin";
  status = active;
  qq = "";
  last_login_ip = "";
  totp_secret = "271828";
  totp_enabled = true;
  last_login_at = none;
}

abbrev pub second_root : Account
second_root = record root { id = 2; email = "second@x.org"; totp_enabled = false }

abbrev pub admins : Table
admins = root ∷ second_root ∷ []

abbrev pub well : Refusals
well = record { counting = false; finding = false; writing = false; reading = false }

-- Requests of one administrator: a wrong password, the right one, and another one's state.
abbrev pub account_env : AccountEnv
account_env = record {
  refusals = well;
  audit_refused = false;
  now = 3000000000;
  salt = 0;
  generated = none;
  drawn = true;
}

one_address : (e : String) → count (λ a. a.email == e) admins ≤ 1
one_address e = elim (Bool-cases (root.email == e)) [
  | inl same ↦
      subst (λ e. count (λ a. a.email == e) admins ≤ 1) ((eq_iff root.email e).0 same) (omega arith)
  | inr other ↦ ground (arith, other)
]

pub admins-Unique : HasUniqueAccounts admins
admins-Unique = record {
  by_id = λ i. ground (arith, nat_beq_iff 1 i, nat_beq_iff 2 i);
  by_email = one_address;
}
