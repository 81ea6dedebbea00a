-- ===== src/Api/Admins/Entered.antt =====
-- Who is behind a request that the middleware lets through to a handler of the administrators.
use mathlib.Core.Path.{subst}
use axmi_pusher.Base.{
  ℕ, Text, Option, [], ◌∷◌, true, some, none, inl, inr, ◌⊎◌, ◌≡◌, refl, ◌==◌, first, arith,
  Bool-cases, text_eq, nat_eq, string_eq,
}
use axmi_pusher.Models.{is_active}
use axmi_pusher.Accounts.{Account, Table, Crypto, AuthError, admin_token, admin_role_super}
use axmi_pusher.Accounts.Tokens.{parse_admin_token}
use axmi_pusher.Api.{Answer, ok}
use axmi_pusher.Api.Auth.{
  Context, empty_context, extract_bearer, require_admin_auth, require_admin_role, passed_admin,
}
use axmi_pusher.Api.Sessions.Checked.{holder-Holder}
use axmi_pusher.Api.Admins.Routes.{RequestEnv, context_of, and_then, as_admin, as_super}
use axmi_pusher.Api.Admins.Super.{is_super}

-- The administrator in a context, as the table has it.
pub record IsRow (rows : Table) (ctx : Context) : Type 0 where
  pub row : Account
  pub named : ctx.admin ≡ some row
  pub read : first (λ a. a.id == row.id) rows ≡ some row
  pub active : is_active row.status ≡ true

module _ (crypto : Crypto) (ttl : ℕ) (env : RequestEnv) (admins : Table) where
  passed-IsRow :
      (token : Text) (p : AuthError ⊎ Account) (ctx : Context)
      → parse_admin_token crypto env.account.now env.read_refused token admins ≡ p
      → passed_admin empty_context p ≡ ok ctx
      → IsRow admins ctx
  unfolding parse_admin_token passed_admin
  passed-IsRow token (inl e') ctx h e = absurd (ground arith)
  passed-IsRow token (inr a) ctx h e =
      let held =
        holder-Holder crypto env.account.now env.read_refused admin_token token admins a h in
      record { row = a; named = ground arith; read = held.read; active = held.active }

  context-eq-ok : (r : Answer Context) (ctx : Context) → context_of r ≡ some ctx → r ≡ ok ctx
  context-eq-ok r ctx h = ground arith

  pub as_admin-IsRow :
      (ctx : Context) → as_admin crypto ttl env admins ≡ some ctx → IsRow admins ctx
  unfolding as_admin require_admin_auth
  as_admin-IsRow ctx h = elim (Bool-cases (extract_bearer env.header == [])) [
    | inl none_given ↦ absurd (ground arith)
    | inr given ↦
        passed-IsRow (extract_bearer env.header) _ ctx refl (context-eq-ok _ ctx (rw given at h))
  ]

  pub as_super-is_super :
      (ctx : Context)
      → as_super crypto ttl env admins ≡ some ctx
      → (r : IsRow admins ctx) × (is_super r.row ≡ true)
  unfolding as_super require_admin_role
  as_super-is_super ctx h = split (as_admin crypto ttl env admins) refl h
    where
      split :
          (o : Option Context)
          → as_admin crypto ttl env admins ≡ o
          → and_then o (require_admin_role (admin_role_super ∷ [])) ≡ some ctx
          → (r : IsRow admins ctx) × (is_super r.row ≡ true)
      split none e k = cc
      split (some c) e k =
          let r = as_admin-IsRow c e in
          let (same, super) : (c ≡ ctx) × (is_super r.row ≡ true) = ground arith in
          subst (λ d. (x : IsRow admins d) × (is_super x.row ≡ true)) same (r, super)
