-- ===== src/Service/Messages.antt =====
-- internal/service/message.go: the acceptance of a request, from its check for duplicates to the
-- rows that it leaves for the queue. The queue, the limiter and the functions that the container
-- injects are an interface; what the database and Redis refuse, and the clock, are the environment.
pub mod Send
pub mod Fallback
pub mod Enqueue
pub mod Served
pub mod Duplicates
pub mod Retry
use axmi_pusher.Base.Keys.{tenant_key, codes}
use axmi_pusher.Base.Assoc.{insert, lookup, Assoc}
use axmi_pusher.Service.RateLimit.{Reply, replied, lost_before, lost_after}
use axmi_pusher.Service.Template.{render_template}
use axmi_pusher.Store.{Message, Store, save_message, save_event, update_status, get_message}
use axmi_pusher.Models.{
  Template, IdempotencyRecord, TaskMessage, msg_pending, msg_failed, event_created,
}
use axmi_pusher.Base.{
  not, false, length, first, text_eq, ◌||◌, nat_eq, string_eq, ◌+◌, ◌++◌, ◌==◌, true, leb,
  if◌then◌else◌, [], some, none, Bool, ◌∷◌, ℕ, String, Option, List, Text, ◌⊎◌, inl, inr, ◌&&◌,
}

pub record Recipient : Type 0 where
  pub target : String
  pub params : Assoc Text Text

pub record SendRequest : Type 0 where
  pub request_id : String
  pub template_code : String
  pub title : Text
  pub content : Text
  pub channel : String
  pub priority : String
  pub recipients : List Recipient

pub record SendResult : Type 0 where
  pub message_id : ℕ
  pub duplicate : Bool
  pub count : ℕ

pub data SendError : Type 0 where
  rate_limited template_missing empty_recipients database_error none_enqueued : SendError
  channel_invalid : String → SendError

pub data EnqueueError : Type 0 where
  save_refused event_refused : EnqueueError
  publish_refused : Text → EnqueueError

-- The collaborators of a MessageService: the queue of state Q, the limiter of state L, and for one
-- request the answers of HasChannel and IsAvailable, which asks about a channel at most once.
pub record Services (Q L : Type 0) : Type 0 where
  pub publish : Q → TaskMessage → Q × Option Text
  pub allow : L → ℕ → ℕ → L × Bool
  pub rate_enabled : Bool
  pub has_channel : Option (String → Bool)
  pub is_available : Option (ℕ → String → Bool)

-- What the service acts on. The cache of Redis, if there is one, holds for a key a message and the
-- second at which the key ends.
pub record Backend (Q L : Type 0) : Type 0 where
  pub store : Store
  pub queue : Q
  pub limiter : L
  pub records : List IdempotencyRecord
  pub templates : List Template
  pub cache : Option (Assoc Text (ℕ × ℕ))

-- The i-th recipient has its own clock and refusals.
pub record SendEnv : Type 0 where
  pub clock : ℕ
  pub cache_read : Reply
  pub find_refused : Bool
  pub template_refused : Bool
  pub now : ℕ → ℕ
  pub failed_at : ℕ → ℕ
  pub save_refused : ℕ → Bool
  pub event_refused : ℕ → Bool
  pub mark_refused : ℕ → Bool
  pub create_refused : Bool
  pub cache_write : Reply

-- unicode.IsSpace
abbrev pub is_blank : ℕ → Bool
is_blank c =
    (leb 9 c && leb c 13)
    || c == 32
    || c == 133
    || c == 160
    || c == 5760
    || (leb 8192 c && leb c 8202)
    || c == 8232
    || c == 8233
    || c == 8239
    || c == 8287
    || c == 12288

-- strings.TrimSpace(s) == ""
unfoldable pub trims_to_empty : Text → Bool
trims_to_empty [] = true
trims_to_empty (c ∷ s) = is_blank c && trims_to_empty s

abbrev pub fallback_order : List String
fallback_order = "webhook" ∷ "email" ∷ "apns" ∷ "fcm" ∷ "inapp" ∷ []

-- The loop of pickFallbackChannel.
unfoldable pub pick_from :
    Option (String → Bool) → Option (ℕ → String → Bool) → ℕ → String → List String → String
pick_from has available tenant preferred [] = preferred
pick_from has (some f) tenant preferred (ch ∷ chs) =
    let rest = pick_from has (some f) tenant preferred chs in
    if ch == preferred then rest else (if f tenant ch then ch else rest)
pick_from (some f) none tenant preferred (ch ∷ chs) =
    let rest = pick_from (some f) none tenant preferred chs in
    if ch == preferred then rest else (if f ch then ch else rest)
pick_from none none tenant preferred (ch ∷ chs) = pick_from none none tenant preferred chs

unfoldable pub pick_fallback_channel :
    Option (String → Bool) → Option (ℕ → String → Bool) → ℕ → String → String
pick_fallback_channel has available tenant preferred =
    pick_from has available tenant preferred fallback_order

-- channel_type of the template, if it has one, else the default
unfoldable pub default_channel : Option Template → String
default_channel none = "webhook"
default_channel (some t) = if t.channel_type == "" then "webhook" else t.channel_type

-- IsAvailable == nil || IsAvailable(tenant, channel)
abbrev pub is_up : Option (ℕ → String → Bool) → ℕ → String → Bool
is_up none tenant channel = true
is_up (some f) tenant channel = f tenant channel

unfoldable pub resolve_channel :
    Option (String → Bool) → Option (ℕ → String → Bool) → ℕ → String → Option Template → String
resolve_channel has available tenant channel template =
    let usual = default_channel template in
    let up = is_up available tenant usual in
    if channel == "" || channel == "auto"
    then (if up then usual else pick_fallback_channel has available tenant usual)
    else channel

-- "idem:" + idemKey
abbrev pub cache_key : ℕ → String → Text
cache_key tenant request = codes "idem:" ++ tenant_key tenant request

-- redisGetScript
unfoldable pub redis_get_script : ℕ → Text → Assoc Text (ℕ × ℕ) → ℕ
redis_get_script clock key c = elim (lookup key c) [
  | none ↦ 0
  | some (v, ends) ↦ if leb ends clock then 0 else v
]

-- redisSetScript, with a day to live
unfoldable pub redis_set_script : ℕ → Text → ℕ → Assoc Text (ℕ × ℕ) → Assoc Text (ℕ × ℕ)
redis_set_script clock key v c = insert key (v, clock + 86400) c

-- WHERE tenant_id = ? AND request_id = ?
abbrev pub is_record : ℕ → String → IdempotencyRecord → Bool
is_record tenant request r = r.tenant_id == tenant && r.request_id == request

abbrev pub is_template : ℕ → String → Template → Bool
is_template tenant code t = t.tenant_id == tenant && t.code == code

-- The cached message, or 0 where the cache does not answer.
unfoldable pub cached : SendEnv → ℕ → String → Option (Assoc Text (ℕ × ℕ)) → ℕ
cached env tenant request none = 0
cached env tenant request (some c) = elim env.cache_read [
  | replied ↦ redis_get_script env.clock (cache_key tenant request) c
  | _ ↦ 0
]

unfoldable pub written :
    SendEnv → ℕ → String → ℕ → Option (Assoc Text (ℕ × ℕ)) → Option (Assoc Text (ℕ × ℕ))
written env tenant request v none = none
written env tenant request v (some c) = elim env.cache_write [
  | lost_before ↦ some c
  | _ ↦ some (redis_set_script env.clock (cache_key tenant request) v c)
]

-- HasChannel == nil || HasChannel(channel)
abbrev pub is_registered : Option (String → Bool) → String → Bool
is_registered none channel = true
is_registered (some f) channel = f channel

abbrev pub duplicate_of : ℕ → SendResult
duplicate_of mid = record { message_id = mid; duplicate = true; count = 0 }

abbrev pub recorded : Option IdempotencyRecord → Option (SendError ⊎ SendResult)
recorded none = none
recorded (some r) = some (inr (duplicate_of r.message_id))

-- GetMessage of the service: another tenant's message is not found.
unfoldable pub get_own_message : ℕ → ℕ → Store → Option Message
get_own_message tenant i s = elim (get_message i s) [
  | none ↦ none
  | some m ↦ if m.tenant_id == tenant then some m else none
]
