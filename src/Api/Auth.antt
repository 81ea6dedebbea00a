-- ===== src/Api/Auth.antt =====
-- internal/api/middleware/auth.go: what a request must show, and what its handler learns of it.
pub mod Bearer
pub mod KeyAccess
use axmi_pusher.Accounts.{AuthError}
use axmi_pusher.Accounts.Tokens.{parse_token, parse_admin_token}
use axmi_pusher.Accounts.Keys.{resolve_api_key}
use axmi_pusher.Api.{Answer, ok, unauthorized, forbidden}
use axmi_pusher.Base.{
  ◌⊎◌, inr, inl, ◌||◌, false, List, ℕ, String, Text, Bool, Option, [], ◌∷◌, some, none,
  if◌then◌else◌, ◌&&◌, ◌==◌, ◌+◌, leb, nat_eq, string_eq, text_eq, map,
}
use axmi_pusher.Base.Keys.{codes}
use axmi_pusher.Accounts.{Table, Crypto, Account, ApiKey}
use axmi_pusher.Compat.{trim_space}

-- The values that the middleware puts into the context of a request.
pub record Context : Type 0 where
  pub user : Option Account
  pub tenant : Option ℕ
  pub api_key : Option ApiKey
  pub admin : Option Account

abbrev pub empty_context : Context
empty_context = record { user = none; tenant = none; api_key = none; admin = none }

-- strings.SplitN(h, " ", 2): the parts before and behind the first space, if there is one.
unfoldable pub split_space : Text → Option (Text × Text)
split_space [] = none
split_space (c ∷ s) =
    let rest = split_space s in
    if c == 32 then some ([], s) else elim rest [ none ↦ none | some (a, b) ↦ some (c ∷ a, b) ]

abbrev lower : ℕ → ℕ
lower c = if leb 65 c && leb c 90 then c + 32 else c

-- strings.EqualFold with "Bearer", whose letters have no other fold than their capitals.
unfoldable pub is_bearer : Text → Bool
is_bearer s = map lower s == codes "bearer"

unfoldable pub bearer_of : Option (Text × Text) → Text
bearer_of none = []
bearer_of (some (scheme, token)) = if is_bearer scheme then trim_space token else []

-- extractBearer, on the header Authorization; empty if there is none.
unfoldable pub extract_bearer : Text → Text
unfolding bearer_of
extract_bearer h = bearer_of (split_space h)

-- CurrentTenantID
unfoldable pub current_tenant_id : Context → ℕ
current_tenant_id ctx = elim ctx.tenant [ none ↦ 0 | some t ↦ t ]

-- resolveTenantID (internal/api/handler/keys.go)
unfoldable pub resolve_tenant_id : Context → ℕ
unfolding current_tenant_id
resolve_tenant_id ctx = elim ctx.user [ none ↦ current_tenant_id ctx | some u ↦ u.id ]

unfoldable pub passed_user : Context → AuthError ⊎ Account → Answer Context
passed_user ctx (inl e) = unauthorized
passed_user ctx (inr u) = ok (record ctx { user = some u })

unfoldable pub passed_admin : Context → AuthError ⊎ Account → Answer Context
passed_admin ctx (inl e) = unauthorized
passed_admin ctx (inr a) = ok (record ctx { admin = some a })

module _ (crypto : Crypto) (now : ℕ) (find_refused write_refused : Bool) where
  -- RequireAuth: the context with which the handler runs, or the answer.
  unfoldable pub require_auth : Text → Table → Context → Answer Context
  unfolding passed_user
  require_auth header users ctx =
      let token = extract_bearer header in
      if token == [] then unauthorized else elim (parse_token crypto now find_refused token users) [
        | inl e ↦ unauthorized
        | inr u ↦ ok (record ctx { user = some u })
      ]

  -- RequireAdminAuth
  unfoldable pub require_admin_auth : Text → Table → Context → Answer Context
  unfolding passed_admin
  require_admin_auth header admins ctx =
      let token = extract_bearer header in
      if token == []
      then unauthorized
      else passed_admin ctx (parse_admin_token crypto now find_refused token admins)

  abbrev pub with_key : ApiKey → Context → Context
  with_key k ctx = record ctx { api_key = some k; tenant = some k.tenant_id }

  unfoldable pub passed_key : Context → AuthError ⊎ ApiKey → Answer Context
  passed_key ctx (inl e) = unauthorized
  passed_key ctx (inr k) = ok (with_key k ctx)

  -- RequireAPIKey
  unfoldable pub require_api_key : Text → List ApiKey → Context → List ApiKey × Answer Context
  unfolding passed_key
  require_api_key header keys ctx =
      let token = extract_bearer header in
      if token == []
      then (keys, unauthorized)
      else (let (keys', found) = resolve_api_key crypto find_refused write_refused now token keys in
          (keys', passed_key ctx found))

  unfoldable pub passed_either : Context → AuthError ⊎ ApiKey → AuthError ⊎ Account → Answer Context
  unfolding passed_user
  passed_either ctx (inr k) user = ok (with_key k ctx)
  passed_either ctx (inl e) user = passed_user ctx user

  -- RequireAuthOrAPIKey: a key first, then a token; `user_refused` is the reading of the user.
  unfoldable pub require_auth_or_api_key :
      Bool → Text → List ApiKey → Table → Context → List ApiKey × Answer Context
  unfolding passed_either
  require_auth_or_api_key user_refused header keys users ctx =
      let token = extract_bearer header in
      if token == []
      then (keys, unauthorized)
      else (let (keys', found) = resolve_api_key crypto find_refused write_refused now token keys in
          (keys', passed_either ctx found (parse_token crypto now user_refused token users)))

abbrev has_role : String → List String → Bool
has_role role [] = false
has_role role (r ∷ rs) = role == r || has_role role rs

-- RequireRole
unfoldable pub require_role : List String → Context → Answer Context
require_role roles ctx = elim ctx.user [
  | none ↦ unauthorized
  | some u ↦ if has_role u.role roles then ok ctx else forbidden
]

-- RequireAdminRole
unfoldable pub require_admin_role : List String → Context → Answer Context
require_admin_role roles ctx = elim ctx.admin [
  | none ↦ unauthorized
  | some a ↦ if has_role a.role roles then ok ctx else forbidden
]
