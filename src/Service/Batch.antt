-- ===== src/Service/Batch.antt =====
-- internal/service/batch.go: the batch tasks and the goroutine that works one off. Cancel runs
-- beside it, so the environment says where its UPDATE falls between the statements of `process`.
-- encoding/json is a parameter: a pair of functions on the configuration.
pub mod Progress
pub mod Cancelled
use axmi_pusher.Base.Keys.{codes}
use axmi_pusher.Base.{
  first, text_eq, ◌++◌, some, ◌%◌, none, count, update, ◌+◌, nat_eq, [], inr, false, string_eq,
  ◌&&◌, length, not, ◌∷◌, List, ◌==◌, Text, ltb, inl, true, ◌||◌, if◌then◌else◌, String, ◌⊎◌, ℕ,
  Option, Bool,
}
use axmi_pusher.Service.Messages.{is_template, Recipient, Backend, Services, SendEnv, EnqueueError}
use axmi_pusher.Service.Messages.Send.{enqueue_one, content_for}
use axmi_pusher.Models.{Template}

pub data BatchStatus : Type 0 where
  batch_pending batch_running batch_done batch_failed batch_cancelled : BatchStatus

pub record BatchTaskConfig : Type 0 where
  pub template_code : String
  pub title : Text
  pub content : Text
  pub channel : String
  pub priority : String
  pub recipients : List Recipient

pub record BatchTask : Type 0 where
  pub id : ℕ
  pub tenant_id : ℕ
  pub name : Text
  pub status : BatchStatus
  pub total : ℕ
  pub success : ℕ
  pub failed : ℕ
  pub config : Text
  pub error : Text

pub data BatchError : Type 0 where
  batch_empty batch_no_content batch_not_encoded batch_not_created : BatchError

pub record Codec : Type 0 where
  pub encode : BatchTaskConfig → Option Text
  pub decode : Text → Option BatchTaskConfig

abbrev pub batch_chunk_size : ℕ
batch_chunk_size = 100

-- if cfg.Channel == "" || cfg.Channel == "auto" { cfg.Channel = "webhook" }
unfoldable pub with_channel : BatchTaskConfig → BatchTaskConfig
with_channel cfg =
    if cfg.channel == "" || cfg.channel == "auto" then record cfg { channel = "webhook" } else cfg

new_task : ℕ → ℕ → Text → BatchTaskConfig → Text → BatchTask
new_task id tenant name cfg raw = record {
  id = id;
  tenant_id = tenant;
  name = name;
  status = batch_pending;
  total = length cfg.recipients;
  success = 0;
  failed = 0;
  config = raw;
  error = [];
}

-- Create, up to the start of `process`, with the key that the database gives.
unfoldable pub create :
    Codec
    → Bool
    → ℕ
    → ℕ
    → Text
    → BatchTaskConfig
    → List BatchTask
    → List BatchTask × (BatchError ⊎ BatchTask)
unfolding new_task
create codec refused id tenant name cfg rows =
    if length cfg.recipients == 0
    then (rows, inl batch_empty)
    else (if cfg.template_code == "" && cfg.content == []
        then (rows, inl batch_no_content)
        else (elim (codec.encode (with_channel cfg)) [
          | none ↦ (rows, inl batch_not_encoded)
          | some raw ↦
              let task = new_task id tenant name (with_channel cfg) raw in
              if refused then (rows, inl batch_not_created) else (rows ++ (task ∷ []), inr task)
        ]))

abbrev pub can_cancel : BatchStatus → Bool
can_cancel batch_pending = true
can_cancel batch_running = true
can_cancel _ = false

abbrev pub is_task : ℕ → ℕ → BatchTask → Bool
is_task tenant id t = t.id == id && t.tenant_id == tenant

abbrev pub may_cancel : ℕ → ℕ → BatchTask → Bool
may_cancel tenant id t = is_task tenant id t && can_cancel t.status

-- What the UPDATE of Cancel does to a row of the task.
unfoldable pub cancel_row : BatchTask → BatchTask
cancel_row t = if can_cancel t.status then record t { status = batch_cancelled } else t

-- Cancel, with whether it has found such a row.
unfoldable pub cancel : ℕ → ℕ → List BatchTask → List BatchTask × Bool
cancel tenant id rows =
    (update (may_cancel tenant id) cancel_row rows, not (count (may_cancel tenant id) rows == 0))

-- What `process` meets: whether the task runs already, and for the i-th recipient whether a Cancel
-- commits before the row is read and between that and the write of the progress, and whether the
-- database refuses the two.
pub record BatchEnv : Type 0 where
  pub busy : Bool
  pub start_refused : Bool
  pub load_refused : Bool
  pub template_refused : Bool
  pub early : ℕ → Bool
  pub late : ℕ → Bool
  pub read_refused : ℕ → Bool
  pub write_refused : ℕ → Bool
  pub end_refused : Bool
  pub sending : SendEnv

abbrev pub cancelled_when : Bool → BatchTask → BatchTask
cancelled_when b t = if b then cancel_row t else t

abbrev pub is_cancelled : BatchStatus → Bool
is_cancelled batch_cancelled = true
is_cancelled _ = false

abbrev pub is_batch_pending : BatchStatus → Bool
is_batch_pending batch_pending = true
is_batch_pending _ = false

-- Updates of a row that the database takes or refuses.
unfoldable pub fail_task : Bool → Text → BatchTask → BatchTask
fail_task refused e t = if refused then t else record t { status = batch_failed; error = e }

unfoldable pub write_progress : Bool → ℕ → ℕ → BatchTask → BatchTask
write_progress refused success failed t =
    if refused || not ((success + failed) % batch_chunk_size == 0)
    then t
    else record t { success = success; failed = failed; status = batch_running }

unfoldable pub write_end : Bool → ℕ → ℕ → BatchTask → BatchTask
write_end refused success failed t =
    let lost = ltb 0 failed && success == 0 in
    if refused then t else record t {
      success = success;
      failed = failed;
      status = if lost then batch_failed else batch_done;
      error = if lost then codes "全部入队失败" else [];
    }

abbrev pub was_lost : EnqueueError ⊎ ℕ → Bool
was_lost (inl e) = true
was_lost (inr mid) = false

module _ {Q L : Type 0} (services : Services Q L) (env : BatchEnv) where
  -- The loop over the recipients, from the i-th on, and the write at its end.
  unfoldable pub process_each :
      ℕ
      → BatchTaskConfig
      → Option Template
      → List Recipient
      → ℕ
      → ℕ
      → BatchTask
      → Backend Q L
      → BatchTask × Backend Q L
  process_each i cfg template [] success failed t b =
      (write_end env.end_refused success failed t, b)
  process_each i cfg template (r ∷ rs) success failed t b =
      let read = cancelled_when (env.early i) t in
      let (b', e) =
        enqueue_one services env.sending i t.tenant_id cfg.channel cfg.title
          (content_for services env.sending template cfg.content r) r.target "" cfg.priority b in
      let success' = if was_lost e then success else success + 1 in
      let failed' = if was_lost e then failed + 1 else failed in
      let next =
        write_progress (env.write_refused i) success' failed' (cancelled_when (env.late i) read) in
      let after = process_each (i + 1) cfg template rs success' failed' next b' in
      if env.read_refused i || is_cancelled read.status then (read, b) else after

  -- From the template on.
  unfoldable pub with_batch_template :
      BatchTaskConfig → Option Template → BatchTask → Backend Q L → BatchTask × Backend Q L
  with_batch_template cfg none t b = (fail_task env.end_refused (codes "模板不存在") t, b)
  with_batch_template cfg (some found) t b =
      let cfg' : BatchTaskConfig = record cfg {
        title = if cfg.title == [] then found.name else cfg.title;
      } in
      process_each 0 cfg' (some found) cfg'.recipients 0 0 t b

  unfoldable pub work_off :
      Option BatchTaskConfig → BatchTask → Backend Q L → BatchTask × Backend Q L
  unfolding with_batch_template
  work_off none t b = (fail_task env.end_refused (codes "任务配置解析失败") t, b)
  work_off (some cfg) t b =
      let found =
        if env.template_refused
        then none
        else first (is_template t.tenant_id cfg.template_code) b.templates in
      if cfg.template_code == ""
      then process_each 0 cfg none cfg.recipients 0 0 t b
      else with_batch_template cfg found t b

  -- process, on the row of its task: only a pending task is started.
  unfoldable pub process : Codec → BatchTask → Backend Q L → BatchTask × Backend Q L
  unfolding work_off
  process codec t b =
      let started : BatchTask = record t { status = batch_running } in
      if env.busy || env.start_refused || not (is_batch_pending t.status)
      then (t, b)
      else (if env.load_refused then (started, b) else work_off (codec.decode t.config) started b)
