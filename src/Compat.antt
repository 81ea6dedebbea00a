-- ===== src/Compat.antt =====
-- internal/compat/serverchan/serverchan.go: the endpoints of ServerChan, turned into a request of the
-- message service. What gin reads from the form and the query of a request is an argument.
pub mod Pushes
use axmi_pusher.Base.Keys.{codes}
use mathlib.Core.List.{reverse}
use axmi_pusher.Base.{
  ◌&&◌, nat_eq, none, text_eq, string_eq, first, some, ◌==◌, update, false, true, [], List, ◌∷◌,
  Option, if◌then◌else◌, String, Text, Bool, ℕ, ◌⊎◌, inl, inr,
}
use axmi_pusher.Models.{RowStatus, is_active}
use axmi_pusher.Service.Messages.{
  is_blank, Services, Backend, SendEnv, SendRequest, SendResult, SendError,
}
use axmi_pusher.Service.Messages.Send.{send}

pub data CompatSource : Type 0 where
  server_chan_v1 server_chan_v2 : CompatSource

pub record CompatKey : Type 0 where
  pub id : ℕ
  pub external_key : String
  pub source : CompatSource
  pub tenant_id : ℕ
  pub default_channel : String
  pub status : RowStatus
  pub last_used_at : Option ℕ

-- The form and the query of a request; a name that is missing has the empty value.
pub record Form : Type 0 where
  pub post_form : String → Text
  pub query : String → Text

pub data PushAnswer : Type 0 where
  pushed : ℕ → PushAnswer
  invalid_key server_error empty_push push_failed : PushAnswer

-- strings.TrimPrefix
unfoldable pub trim_prefix : Text → Text → Text
trim_prefix p s = elim (after_prefix p s) [ none ↦ s | some rest ↦ rest ]
  where
    after_prefix : Text → Text → Option Text
    after_prefix [] s = some s
    after_prefix (c ∷ p) [] = none
    after_prefix (c ∷ p) (d ∷ s) = let rest = after_prefix p s in if c == d then rest else none

-- strings.TrimSuffix
unfoldable pub trim_suffix : Text → Text → Text
trim_suffix p s = reverse (trim_prefix (reverse p) (reverse s))

unfoldable pub trim_left : Text → Text
trim_left [] = []
trim_left (c ∷ s) = let rest = trim_left s in if is_blank c then rest else c ∷ s

-- strings.TrimSpace
unfoldable pub trim_space : Text → Text
trim_space s = reverse (trim_left (reverse (trim_left s)))

unfoldable pub parse_compat_key : Text → Text
parse_compat_key raw =
    let key = trim_space (trim_suffix (codes ".send") (trim_prefix (codes "/") raw)) in
    if key == codes "/" then [] else key

abbrev or_else : Text → Text → Text
or_else a b = if a == [] then b else a

-- extractParams: the title and the text.
unfoldable pub extract_params : CompatSource → Form → Text × Text
extract_params server_chan_v2 f =
    (or_else (f.post_form "title") (f.post_form "short"), f.post_form "desp")
extract_params server_chan_v1 f =
    (or_else (f.post_form "text") (f.query "text"), or_else (f.post_form "desp") (f.query "desp"))

abbrev pub same_source : CompatSource → CompatSource → Bool
same_source server_chan_v1 server_chan_v1 = true
same_source server_chan_v2 server_chan_v2 = true
same_source _ _ = false

-- external_key = ? AND source = ? AND status = 'active'
abbrev pub is_key : Text → CompatSource → CompatKey → Bool
is_key key source k =
    codes k.external_key == key && same_source k.source source && is_active k.status

-- The recipient; the key of the row that was found is the one of the request.
unfoldable pub push_target : CompatKey → String
push_target k =
    if k.default_channel == "inapp"
    then "all"
    else (if k.default_channel == "email" then "" else k.external_key)

unfoldable pub push_request : CompatKey → Text → Text → SendRequest
push_request k title desp = record {
  request_id = "";
  template_code = "";
  title = title;
  content = desp;
  channel = k.default_channel;
  priority = "normal";
  recipients = record { target = push_target k; params = [] } ∷ [];
}

unfoldable pub mark_used : Bool → ℕ → ℕ → List CompatKey → List CompatKey
mark_used refused id now keys =
    if refused
    then keys
    else update (λ k. k.id == id) (λ k. record k { last_used_at = some now }) keys

module _ {Q L : Type 0} (services : Services Q L) (env : SendEnv) where
  unfoldable pub answered :
      Bool
      → ℕ
      → ℕ
      → List CompatKey
      → Backend Q L × (SendError ⊎ SendResult)
      → List CompatKey × Backend Q L × PushAnswer
  answered refused id now keys (b, inl e) = (keys, b, push_failed)
  answered refused id now keys (b, inr r) = (mark_used refused id now keys, b, pushed r.message_id)

  unfoldable pub push :
      Bool
      → ℕ
      → CompatSource
      → Form
      → Option CompatKey
      → List CompatKey
      → Backend Q L
      → List CompatKey × Backend Q L × PushAnswer
  unfolding answered
  push refused now source form none keys b = (keys, b, invalid_key)
  push refused now source form (some k) keys b =
      let (title, desp) = extract_params source form in
      if title == [] && desp == []
      then (keys, b, empty_push)
      else answered refused k.id now keys
          (send services env k.tenant_id (push_request k title desp) b)

  -- handle: the statements that find the key and note its use may be refused.
  unfoldable pub handle_push :
      Bool
      → Bool
      → ℕ
      → CompatSource
      → Text
      → Form
      → List CompatKey
      → Backend Q L
      → List CompatKey × Backend Q L × PushAnswer
  handle_push find_refused refused now source raw form keys b =
      let key = parse_compat_key raw in
      if key == []
      then (keys, b, invalid_key)
      else (if find_refused
          then (keys, b, server_error)
          else push refused now source form (first (is_key key source) keys) keys b)
