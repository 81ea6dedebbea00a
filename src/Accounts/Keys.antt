-- ===== src/Accounts/Keys.antt =====
-- The API keys: CreateAPIKey, ResolveAPIKey, RevokeAPIKey and ListAPIKeys.
pub mod Lives
pub mod Revoked
use axmi_pusher.Base.{
  take, Text, ℕ, String, Bool, Option, List, [], ◌∷◌, ◌++◌, true, false, some, none, inl, inr, ◌⊎◌,
  count, first, select, update, ◌==◌, if◌then◌else◌, not, ◌&&◌, ◌||◌, nat_eq, string_eq, ltb,
}
use mathlib.Core.List.{reverse}
use axmi_pusher.Models.{active, disabled, is_active}
use axmi_pusher.Accounts.{Text, ApiKey, Crypto, AuthError, refused, key_expired}

module _ (crypto : Crypto) where
  -- CreateAPIKey: `plain` is the key that generateKey makes, and `plain[:8]` its prefix. The hash is unique in the table.
  unfoldable pub create_api_key :
      Bool
      → ℕ
      → ℕ
      → Text
      → String
      → String
      → Option ℕ
      → List ApiKey
      → List ApiKey × (AuthError ⊎ (ApiKey × Text))
  create_api_key write_refused id tenant plain name scopes expires_at keys =
      let k : ApiKey = record {
        id = id;
        tenant_id = tenant;
        name = name;
        key_prefix = take 8 plain;
        key_hash = crypto.digest plain;
        scopes = scopes;
        status = active;
        expires_at = expires_at;
        last_used_at = none;
      } in
      if write_refused || not (count (λ r. r.key_hash == k.key_hash) keys == 0)
      then (keys, inl refused)
      else (keys ++ (k ∷ []), inr (k, plain))

  -- key_hash = ? AND status = 'active'
  abbrev pub opens : Text → ApiKey → Bool
  opens plain k = k.key_hash == crypto.digest plain && is_active k.status

  abbrev pub has_expired : ℕ → ApiKey → Bool
  has_expired now k = elim k.expires_at [ none ↦ false | some t ↦ ltb t now ]

  unfoldable pub used_key :
      Bool → ℕ → List ApiKey → Option ApiKey → List ApiKey × (AuthError ⊎ ApiKey)
  used_key write_refused now keys none = (keys, inl refused)
  used_key write_refused now keys (some k) =
      if has_expired now k then (keys, inl key_expired) else (
        if write_refused
            then keys
            else update (λ r. r.id == k.id) (λ r. record r { last_used_at = some now }) keys,
        inr (record k { last_used_at = some now }),
      )

  -- ResolveAPIKey: the note of its use is not checked.
  unfoldable pub resolve_api_key :
      Bool → Bool → ℕ → Text → List ApiKey → List ApiKey × (AuthError ⊎ ApiKey)
  unfolding used_key
  resolve_api_key find_refused write_refused now plain keys =
      used_key write_refused now keys (if find_refused then none else first (opens plain) keys)

-- RevokeAPIKey: no row is no error.
unfoldable pub revoke_api_key : Bool → ℕ → ℕ → List ApiKey → List ApiKey × Bool
revoke_api_key write_refused tenant id keys = if write_refused then (keys, false) else (
  update (λ k. k.id == id && k.tenant_id == tenant) (λ k. record k { status = disabled }) keys,
  true,
)

-- ListAPIKeys
unfoldable pub list_api_keys : Bool → ℕ → List ApiKey → Option (List ApiKey)
list_api_keys find_refused tenant keys =
    if find_refused then none else some (reverse (select (λ k. k.tenant_id == tenant) keys))
