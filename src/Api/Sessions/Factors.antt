-- ===== src/Api/Sessions/Factors.antt =====
-- Which factors stand behind the tokens that were signed, over all sequences of requests.
use axmi_pusher.Base.{
  ℕ, String, Text, Bool, Option, List, [], ◌∷◌, ◌++◌, true, false, some, none, inl, inr, ◌⊎◌, ◌≡◌,
  if◌then◌else◌, first, ◌==◌, nat_eq, string_eq, arith, All, first_passes, Listed, Listed-append,
  nat_beq_iff, ◌∙◌,
}
use axmi_pusher.Accounts.{
  Account, Table, Crypto, JwtClaims, TokenKind, user_token, admin_token, pending_token,
}
use axmi_pusher.Api.Sessions.Checked.{Found, Pending}
use axmi_pusher.Api.{Answer, ok}
use axmi_pusher.Api.Sessions.{
  Grant, session, need_totp, LoginEnv, login_user, login_totp_user, login_admin, login_totp_admin,
  signed_session, signed_pending,
}

-- What a person has shown for a user, or for an administrator: the password, with whether a second
-- step was asked for, or the code of the second step.
pub data Proof : Type 0 where
  password : Bool → ℕ → Bool → Proof
  code : Bool → ℕ → Proof

-- The password, and the code if the account asks for one.
abbrev pub Proven : Bool → ℕ → List Proof → Type 0
Proven is_admin id shown =
    Listed (password is_admin id false) shown
    ⊎ (Listed (password is_admin id true) shown × Listed (code is_admin id) shown)

abbrev pub Factors : TokenKind → JwtClaims → List Proof → Type 0
Factors user_token c shown = Proven false c.user_id shown
Factors admin_token c shown = Proven true c.user_id shown
Factors pending_token c shown = Listed (password (c.role == "admin") c.user_id true) shown

Factors-append :
    (k : TokenKind) (c : JwtClaims) (new old : List Proof)
    → Factors k c old
    → Factors k c (new ++ old)
Factors-append user_token c new old (inl h) = inl (Listed-append _ new old h)
Factors-append user_token c new old (inr (h, g)) =
    inr (Listed-append _ new old h, Listed-append _ new old g)
Factors-append admin_token c new old (inl h) = inl (Listed-append _ new old h)
Factors-append admin_token c new old (inr (h, g)) =
    inr (Listed-append _ new old h, Listed-append _ new old g)
Factors-append pending_token c new old h = Listed-append _ new old h

-- The requests that log in: a password for an e-mail address, or a token and a code; of an
-- administrator or a user.
pub data LoginRequest : Type 0 where
  first_step : Bool → String → String → LoginRequest
  second_step : Bool → Text → String → LoginRequest

-- The two tables, the tokens that the service has handed out, and what has been shown.
pub record World : Type 0 where
  pub users : Table
  pub admins : Table
  pub issued : List Text
  pub shown : List Proof

abbrev pub table : Bool → World → Table
table true w = w.admins
table false w = w.users

-- The tokens of an answer.
abbrev pub tokens_of : Answer Grant → List Text
tokens_of (ok (session t a)) = t ∷ []
tokens_of (ok (need_totp t)) = t ∷ []
tokens_of _ = []

module _ (crypto : Crypto) where
  -- A token that was signed with claims whose factors have been shown.
  pub record Backed (shown : List Proof) (t : Text) : Type 0 where
    pub claims : JwtClaims
    pub signed : crypto.sign claims ≡ some t
    pub factors : Factors claims.kind claims shown

  Backed-append : (new old : List Proof) (t : Text) → Backed old t → Backed (new ++ old) t
  Backed-append new old t b = record {
    claims = b.claims;
    signed = b.signed;
    factors = Factors-append b.claims.kind b.claims new old b.factors;
  }

  pub All-Backed-append :
      (new old : List Proof) (ts : List Text) → All (Backed old) ts → All (Backed (new ++ old)) ts
  All-Backed-append new old [] h = tt
  All-Backed-append new old (t ∷ ts) (b, h) =
      (Backed-append new old t b, All-Backed-append new old ts h)

  pub session-Backed :
      (u : Account) (shown : List Proof) (c : JwtClaims) (o : Option Text)
      → crypto.sign c ≡ o
      → Factors c.kind c shown
      → All (Backed shown) (tokens_of (signed_session u o))
  session-Backed u shown c none e f = tt
  session-Backed u shown c (some t) e f = (record { claims = c; signed = e; factors = f }, tt)

  pub pending-Backed :
      (shown : List Proof) (c : JwtClaims) (o : Option Text)
      → crypto.sign c ≡ o
      → Factors c.kind c shown
      → All (Backed shown) (tokens_of (signed_pending o))
  pending-Backed shown c none e f = tt
  pending-Backed shown c (some t) e f = (record { claims = c; signed = e; factors = f }, tt)

module _ (crypto : Crypto) (ttl : ℕ) (env : LoginEnv) where
  -- What a request shows, read off the tables alone.
  unfoldable pub shows : LoginRequest → World → List Proof
  shows (first_step is_admin email secret) w =
      elim (first (λ a. a.email == email) (table is_admin w)) [
        | none ↦ []
        | some a ↦
            if crypto.compare a.password_hash secret
            then password is_admin a.id a.totp_enabled ∷ []
            else []
      ]
  shows (second_step is_admin token digits) w = elim (crypto.verify token env.now) [
    | none ↦ []
    | some c ↦ elim (first (λ a. a.id == c.user_id) (table is_admin w)) [
      | none ↦ []
      | some a ↦
          if crypto.validate digits a.totp_secret env.now then code is_admin a.id ∷ [] else []
    ]
  ]

  -- The handler of a request on its table.
  unfoldable pub handled : LoginRequest → World → Table × Answer Grant
  handled (first_step true email secret) w = login_admin crypto ttl env email secret w.admins
  handled (first_step false email secret) w = login_user crypto ttl env email secret w.users
  handled (second_step true token digits) w = login_totp_admin crypto ttl env token digits w.admins
  handled (second_step false token digits) w = login_totp_user crypto ttl env token digits w.users

  pub shows_password :
      (is_admin : Bool) (email secret : String) (w : World) (u : Account)
      → Found
          (λ a. crypto.compare a.password_hash secret)
          (λ a. a.email == email)
          (table is_admin w)
          u
      → shows (first_step is_admin email secret) w ≡ password is_admin u.id u.totp_enabled ∷ []
  unfolding shows
  shows_password is_admin email secret w u f = ground arith

  pub shows_code :
      (is_admin : Bool) (token : Text) (digits : String) (w : World) (u : Account) (id : ℕ)
      (p : Pending crypto env.now token id is_admin)
      → Found
          (λ a. crypto.validate digits a.totp_secret env.now)
          (λ a. a.id == id)
          (table is_admin w)
          u
      → (shows (second_step is_admin token digits) w ≡ code is_admin u.id ∷ []) × (u.id ≡ id)
  unfolding shows
  shows_code is_admin token digits w u id p f = (
    ground arith,
    f.same_id ∙ (nat_beq_iff f.row.id id).0 (first_passes _ (table is_admin w) f.row f.read),
  )
