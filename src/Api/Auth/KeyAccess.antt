-- ===== src/Api/Auth/KeyAccess.antt =====
-- What an API key opens, from its creation to its revocation.
use axmi_pusher.Base.{
  ℕ, String, Text, Bool, Option, List, [], ◌∷◌, ◌++◌, true, false, some, none, inl, inr, ◌⊎◌, ◌≡◌,
  ◌≢◌, refl, ◌∙◌, arith, ◌==◌, nat_eq, string_eq, text_eq, not, count, ◌&&◌, Bool-cases, All, ltb,
  read_first,
}
use axmi_pusher.Compat.{trim_space}
use axmi_pusher.Accounts.{ApiKey, Table, Crypto, AuthError, Account}
use axmi_pusher.Accounts.Keys.{
  create_api_key, resolve_api_key, revoke_api_key, used_key, opens, has_expired,
}
use axmi_pusher.Accounts.Keys.Lives.{
  KeyCall, IsNotRevoking, Finds, after_calls, after_calls-Finds, create-Finds,
}
use axmi_pusher.Accounts.Keys.Revoked.{
  IsNotMaking, active_rows, after_calls-inactive, revoke-inactive, used_key-ne,
}
use axmi_pusher.Api.{Answer, ok}
use axmi_pusher.Api.Auth.{
  Context, empty_context, extract_bearer, is_bearer, require_auth_or_api_key, passed_either,
  passed_user, with_key, resolve_tenant_id,
}
use axmi_pusher.Api.Auth.Bearer.{extract_bearer-append}

-- Whether a time has not passed, or there is none.
abbrev pub is_before : ℕ → Option ℕ → Bool
is_before now none = true
is_before now (some t) = not (ltb t now)

-- A request that was let in for a tenant.
pub record EntersFor (tenant : ℕ) (answer : Answer Context) : Type 0 where
  pub context : Context
  pub let_in : answer ≡ ok context
  pub of_tenant : resolve_tenant_id context ≡ tenant

module _ (crypto : Crypto) (now : ℕ) (write_refused user_refused : Bool) (header plain : Text)
    (tenant id : ℕ) (expires_at : Option ℕ) (keys : List ApiKey) (users : Table) where
  found-EntersFor :
      extract_bearer header ≡ plain
      → (plain == []) ≡ false
      → is_before now expires_at ≡ true
      → Finds crypto plain tenant id expires_at keys
      → EntersFor tenant
          (require_auth_or_api_key crypto now false write_refused user_refused header keys users
            empty_context).1
  unfolding require_auth_or_api_key resolve_api_key used_key resolve_tenant_id
  found-EntersFor given some_text valid f =
      let alive : has_expired crypto now f.row ≡ false = ground (arith, f.expiry, valid) in
      record {
        context =
            with_key crypto now false write_refused (record f.row { last_used_at = some now })
              empty_context;
        let_in = rw (given, some_text, f.read, alive) refl;
        of_tenant = f.of_tenant;
      }

-- A new key opens the API for its tenant, whatever other keys are made, used and revoked in between,
-- until its time is over or it is revoked: RequireAuthOrAPIKey lets a request with "Bearer" and the
-- text of the key through as one of the tenant. The key is a text without blanks around it, and its
-- row can be read.
pub new_key_opens :
    (crypto : Crypto) (now tenant id : ℕ) (create_refused write_refused user_refused : Bool)
    (scheme plain : Text) (name scopes : String) (expires_at : Option ℕ) (keys : List ApiKey)
    (users : Table) (made : ApiKey × Text) (cs : List KeyCall)
    → (create_api_key crypto create_refused id tenant plain name scopes expires_at keys).1
      ≡ inr made
    → All (IsNotRevoking tenant id) cs
    → is_bearer scheme ≡ true
    → trim_space plain ≡ plain
    → (plain == []) ≡ false
    → is_before now expires_at ≡ true
    → EntersFor tenant
        (require_auth_or_api_key crypto now false write_refused user_refused
          (scheme ++ (32 ∷ plain))
          (after_calls crypto cs
            (create_api_key crypto create_refused id tenant plain name scopes expires_at keys).0)
          users
          empty_context).1
new_key_opens crypto now tenant id create_refused write_refused user_refused scheme plain name
      scopes expires_at keys users made cs created others bearer trimmed some_text valid =
    found-EntersFor crypto now write_refused user_refused _ plain tenant id expires_at _ users
      (extract_bearer-append scheme plain bearer ∙ trimmed) some_text valid
      (after_calls-Finds crypto plain tenant id expires_at cs _ others (
        create-Finds crypto plain tenant id expires_at create_refused name scopes keys made
          created))

module _ (crypto : Crypto) (now id : ℕ) (find_refused write_refused user_refused : Bool)
    (header : Text) (keys : List ApiKey) (users : Table) where
  either-ne :
      (found : AuthError ⊎ ApiKey) (user : AuthError ⊎ Account) (ctx : Context) (k : ApiKey)
      → ((r : ApiKey) → found ≡ inr r → r.id ≢ id)
      → passed_either crypto now find_refused write_refused empty_context found user ≡ ok ctx
      → ctx.api_key ≡ some k
      → k.id ≢ id
  unfolding passed_either passed_user
  either-ne (inr r) user ctx k other h named = ground (arith, other r refl)
  either-ne (inl e) (inl e') ctx k other h named = cc
  either-ne (inl e) (inr u) ctx k other h named = absurd (ground arith)

  inactive-refused :
      (ctx : Context) (k : ApiKey)
      → active_rows id keys ≡ 0
      → (require_auth_or_api_key crypto now find_refused write_refused user_refused header keys
          users empty_context).1
        ≡ ok ctx
      → ctx.api_key ≡ some k
      → k.id ≢ id
  unfolding require_auth_or_api_key resolve_api_key
  inactive-refused ctx k none_left h named = elim (Bool-cases (extract_bearer header == [])) [
    | inl none_given ↦ absurd (ground arith)
    | inr given ↦
        either-ne _ _ ctx k
          (λ r e.
            used_key-ne crypto id (extract_bearer header) write_refused now keys _ r
              (λ q f. read_first find_refused (opens crypto (extract_bearer header)) keys q f)
              none_left e)
          (rw given at h) named
  ]

-- A key that RevokeAPIKey has written as revoked lets no request in again, whatever calls on keys
-- follow that make no row with its id: where RequireAuthOrAPIKey lets a request in with an API key,
-- that is another one. No row of another tenant has the id.
pub revoked_key_shut :
    (crypto : Crypto) (now tenant id : ℕ) (find_refused write_refused user_refused : Bool)
    (header : Text) (keys : List ApiKey) (users : Table) (cs : List KeyCall) (ctx : Context)
    (k : ApiKey)
    → count (λ r. r.id == id && not (r.tenant_id == tenant)) keys ≡ 0
    → All (IsNotMaking id) cs
    → (require_auth_or_api_key crypto now find_refused write_refused user_refused header
        (after_calls crypto cs (revoke_api_key false tenant id keys).0)
        users
        empty_context).1
      ≡ ok ctx
    → ctx.api_key ≡ some k
    → k.id ≢ id
unfolding revoke_api_key
revoked_key_shut crypto now tenant id find_refused write_refused user_refused header keys users cs
      ctx k own others entered named =
    inactive-refused crypto now id find_refused write_refused user_refused header _ users ctx k
      (after_calls-inactive crypto id cs _ others (revoke-inactive crypto id tenant keys own))
      entered named
