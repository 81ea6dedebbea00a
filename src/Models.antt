-- ===== src/Models.antt =====
-- internal/models/models.go: the constants of the state machines, as data types; the task that the
-- queue hands to a worker (internal/queue/queue.go).
use axmi_pusher.Base.{ℕ, String, Text, Bool, true, false}

-- StatusActive and the other states of a row; only "active" lets a row through.
pub data RowStatus : Type 0 where
  active disabled pending : RowStatus

pub data MsgStatus : Type 0 where
  msg_pending msg_sending msg_success msg_failed msg_retrying msg_dead msg_cancelled : MsgStatus

pub data EventType : Type 0 where
  event_created event_sending event_success event_failed event_retry event_dead : EventType

abbrev pub is_active : RowStatus → Bool
is_active active = true
is_active _ = false

abbrev pub is_disabled : RowStatus → Bool
is_disabled disabled = true
is_disabled _ = false

-- TaskMessage
pub record TaskMessage : Type 0 where
  pub message_id : ℕ
  pub tenant_id : ℕ
  pub request_id : String
  pub channel : String
  pub title : Text
  pub content : Text
  pub recipient : String
  pub priority : String
  pub retry_count : ℕ
  pub created_at : ℕ

pub record Template : Type 0 where
  pub id : ℕ
  pub tenant_id : ℕ
  pub code : String
  pub name : Text
  pub content : Text
  pub channel_type : String
  pub status : RowStatus
  pub created_by : ℕ

pub record IdempotencyRecord : Type 0 where
  pub tenant_id : ℕ
  pub request_id : String
  pub message_id : ℕ
