-- ===== src/Store.antt =====
-- internal/store: the message table and its events. A statement that the database refuses changes
-- nothing and returns its error; the argument `refused` of an operation says which.
pub mod Ordered
pub mod Claims
pub mod Capped
pub mod Leases
pub mod Recoveries
pub mod Query
use axmi_pusher.Base.Keys.{codes}
use axmi_pusher.Base.{
  Eq, eq_of_discrete, ℕ, ◌+◌, String, Text, Bool, true, false, ◌&&◌, Option, none, some, List, [],
  ◌∷◌, ◌++◌, leb, ltb, ◌==◌, nat_eq, string_eq, select, first, update, count, take, if◌then◌else◌,
}
use axmi_pusher.Base.Sort.{sort_by}
use axmi_pusher.Models.{MsgStatus, msg_pending, msg_sending, msg_retrying, msg_dead, EventType}

-- Message, and the row storedMessage that toStored and fromStored copy field by field. A time is a
-- count of nanoseconds.
pub record Message : Type 0 where
  pub message_id : ℕ
  pub tenant_id : ℕ
  pub request_id : String
  pub channel : String
  pub title : Text
  pub content : Text
  pub recipient : String
  pub status : MsgStatus
  pub error : Text
  pub retry_count : ℕ
  pub cost_ms : ℕ
  pub created_at : ℕ
  pub updated_at : ℕ

pub record MessageEvent : Type 0 where
  pub message_id : ℕ
  pub event_type : EventType
  pub detail : Text
  pub created_at : ℕ

-- The rows of `messages`, oldest first, those of `message_events`, and the next key.
pub record Store : Type 0 where
  pub messages : List Message
  pub events : List MessageEvent
  pub next_id : ℕ

pub MsgStatus-discrete : Discrete MsgStatus
MsgStatus-discrete = hlevel

instance abbrev pub status_eq : Eq MsgStatus
status_eq = eq_of_discrete MsgStatus-discrete

abbrev pub is_pending : MsgStatus → Bool
is_pending msg_pending = true
is_pending _ = false

-- status IN ('SENDING','RETRYING')
abbrev pub is_in_flight : MsgStatus → Bool
is_in_flight msg_sending = true
is_in_flight msg_retrying = true
is_in_flight _ = false

abbrev pub has_id : ℕ → Message → Bool
has_id i m = m.message_id == i

unfoldable pub save_message : Bool → Message → Store → Store × Option ℕ
save_message refused m s = if refused then (s, none) else (
  record s {
    messages = s.messages ++ (record m { message_id = s.next_id } ∷ []);
    next_id = s.next_id + 1;
  },
  some s.next_id,
)

unfoldable pub update_status : Bool → ℕ → MsgStatus → Text → ℕ → Store → Store
update_status refused i status error now s = if refused then s else record s {
  messages =
      update (has_id i) (λ m. record m { status = status; error = error; updated_at = now })
        s.messages;
}

unfoldable pub get_message : ℕ → Store → Option Message
get_message i s = first (has_id i) s.messages

unfoldable pub save_event : Bool → MessageEvent → Store → Store
save_event refused e s = if refused then s else record s { events = s.events ++ (e ∷ []) }

-- claimQuery: the pending rows of the smallest keys
unfoldable pub claim_query : ℕ → List Message → List Message
claim_query limit rows =
    take limit (sort_by (λ m. m.message_id) (select (λ m. is_pending m.status) rows))

-- The loop of ClaimPending over the rows that were read: each UPDATE names one key.
unfoldable pub mark_sending : ℕ → List Message → List Message → List Message
mark_sending now [] rows = rows
mark_sending now (m ∷ ms) rows =
    mark_sending now ms
      (update (has_id m.message_id) (λ r. record r { status = msg_sending; updated_at = now }) rows)

-- The transaction commits whole or not at all; the rows come back as they were read.
unfoldable pub claim_pending : Bool → ℕ → ℕ → Store → Store × Option (List Message)
claim_pending refused limit now s =
    let claimed = claim_query limit s.messages in
    if refused
    then (s, none)
    else (record s { messages = mark_sending now claimed s.messages }, some claimed)

-- WHERE status IN ('SENDING','RETRYING') AND updated_at < now - lease
unfoldable pub is_stale : ℕ → ℕ → Message → Bool
is_stale lease now m = is_in_flight m.status && ltb (m.updated_at + lease) now

abbrev claim_limit_error : Text
claim_limit_error = codes "认领超限(数据库队列)"

-- The SET clause; it reads the columns as they were.
unfoldable pub reap_row : ℕ → ℕ → Message → Message
reap_row max_attempts now m =
    let spent = leb max_attempts (m.retry_count + 1) in
    record m {
      status = if spent then msg_dead else msg_pending;
      error = if spent then claim_limit_error else m.error;
      retry_count = m.retry_count + 1;
      updated_at = now;
    }

unfoldable pub reap_stale : Bool → ℕ → ℕ → ℕ → ℕ → Store → Store × Option ℕ
reap_stale refused lease max_attempts now written s = if refused then (s, none) else (
  record s { messages = update (is_stale lease now) (reap_row max_attempts written) s.messages },
  some (count (is_stale lease now) s.messages),
)
