-- ===== src/Service/Messages/Send.antt =====
-- internal/service/message.go: Send and EnqueueOne.
use axmi_pusher.Base.{◌⊎◌, inl, inr, ◌&&◌}
use axmi_pusher.Service.Messages.{
  Recipient, SendRequest, SendResult, SendError, EnqueueError, Services, Backend, SendEnv,
  trims_to_empty, resolve_channel, is_record, is_template, cached, written, is_registered,
  duplicate_of, recorded, rate_limited, template_missing, empty_recipients, database_error,
  none_enqueued, channel_invalid, save_refused, event_refused, publish_refused,
}
use axmi_pusher.Base.Keys.{codes}
use axmi_pusher.Service.Template.{render_template}
use axmi_pusher.Store.{save_message, save_event, update_status}
use axmi_pusher.Models.{Template, TaskMessage, msg_pending, msg_failed, event_created}
use axmi_pusher.Base.{
  not, false, length, first, text_eq, nat_eq, string_eq, ◌+◌, ◌++◌, ◌==◌, true, if◌then◌else◌, [],
  some, none, Bool, ◌∷◌, ℕ, String, Option, List, Text, ◌⊎◌, inl, inr, ◌&&◌,
}

-- The first message and the count, after one more recipient; an error counts for nothing.
unfoldable pub tally : EnqueueError ⊎ ℕ → ℕ → ℕ → ℕ × ℕ
tally (inl e) head count = (head, count)
tally (inr mid) head count = (if head == 0 then mid else head, count + 1)

module _ {Q L : Type 0} (services : Services Q L) (env : SendEnv) where
  -- Publish and, where it fails, the row marked as failed.
  unfoldable pub hand_over : ℕ → TaskMessage → Backend Q L → Backend Q L × (EnqueueError ⊎ ℕ)
  hand_over i task b =
      let (q, e) = services.publish b.queue task in
      elim e [
        | none ↦ (record b { queue = q }, inr task.message_id)
        | some text ↦ (
          record b {
            queue = q;
            store =
                update_status (env.mark_refused i) task.message_id msg_failed
                  (codes "入队失败: " ++ text) (env.failed_at i) b.store;
          },
          inl (publish_refused text),
        )
      ]

  unfoldable pub enqueue_one :
      ℕ
      → ℕ
      → String
      → Text
      → Text
      → String
      → String
      → String
      → Backend Q L
      → Backend Q L × (EnqueueError ⊎ ℕ)
  enqueue_one i tenant channel title content recipient request priority b =
      let now = env.now i in
      let (saved, id) =
        save_message (env.save_refused i)
          (record {
            message_id = 0;
            tenant_id = tenant;
            request_id = request;
            channel = channel;
            title = title;
            content = content;
            recipient = recipient;
            status = msg_pending;
            error = [];
            retry_count = 0;
            cost_ms = 0;
            created_at = now;
            updated_at = now;
          })
          b.store in
      elim id [
        | none ↦ (b, inl save_refused)
        | some mid ↦
            let noted =
              save_event (env.event_refused i)
                (record {
                  message_id = mid;
                  event_type = event_created;
                  detail = [];
                  created_at = now;
                })
                saved in
            if env.event_refused i
            then (record b { store = saved }, inl event_refused)
            else hand_over i
                (record {
                  message_id = mid;
                  tenant_id = tenant;
                  request_id = request;
                  channel = channel;
                  title = title;
                  content = content;
                  recipient = recipient;
                  priority = priority;
                  retry_count = 0;
                  created_at = now;
                })
                (record b { store = noted })
      ]

  -- if strings.TrimSpace(r.Target) == "" && channel != "email" { continue }
  abbrev pub is_skipped : String → Recipient → Bool
  is_skipped channel r = trims_to_empty (codes r.target) && not (channel == "email")

  unfoldable pub content_for : Option Template → Text → Recipient → Text
  content_for none content r = content
  content_for (some t) content r = render_template r.params t.content

  -- The loop over the recipients, from the i-th on: what it leaves, the first message and the count.
  unfoldable pub enqueue_all :
      ℕ
      → ℕ
      → String
      → Option Template
      → Text
      → SendRequest
      → List Recipient
      → ℕ
      → ℕ
      → Backend Q L
      → Backend Q L × (ℕ × ℕ)
  enqueue_all i tenant channel template title req [] head count b = (b, (head, count))
  enqueue_all i tenant channel template title req (r ∷ rs) head count b =
      let (b', e) =
        enqueue_one i tenant channel title (content_for template req.content r) r.target
          req.request_id req.priority b in
      let (head', count') = tally e head count in
      let skipped = enqueue_all (i + 1) tenant channel template title req rs head count b in
      let after = enqueue_all (i + 1) tenant channel template title req rs head' count' b' in
      if is_skipped channel r then skipped else after

  -- The end of Send: the record of the request and its cached copy.
  unfoldable pub conclude :
      ℕ → String → ℕ → ℕ → Backend Q L → Backend Q L × (SendError ⊎ SendResult)
  conclude tenant request head n b =
      let result : SendResult = record { message_id = head; duplicate = false; count = n } in
      if n == 0
      then (b, inl none_enqueued)
      else (if request == ""
          then (b, inr result)
          else (if env.create_refused then (b, inl database_error) else (
            record b {
              records =
                  b.records
                  ++ (record { tenant_id = tenant; request_id = request; message_id = head } ∷ []);
              cache = written env tenant request head b.cache;
            },
            inr result,
          )))

  -- From the channel of the request on; the title is the request's or else the template's name.
  unfoldable pub deliver :
      ℕ
      → SendRequest
      → Option Template
      → Text
      → Backend Q L
      → Backend Q L × (SendError ⊎ SendResult)
  deliver tenant req template title b =
      let channel =
        resolve_channel services.has_channel services.is_available tenant req.channel template in
      let (b', (head, n)) = enqueue_all 0 tenant channel template title req req.recipients 0 0 b in
      if is_registered services.has_channel channel
      then conclude tenant req.request_id head n b'
      else (b, inl (channel_invalid channel))

  unfoldable pub with_template :
      ℕ → SendRequest → Option Template → Backend Q L → Backend Q L × (SendError ⊎ SendResult)
  with_template tenant req none b = (b, inl template_missing)
  with_template tenant req (some t) b =
      deliver tenant req (some t) (if req.title == [] then t.name else req.title) b

  -- From the limiter on.
  unfoldable pub accept : ℕ → SendRequest → Backend Q L → Backend Q L × (SendError ⊎ SendResult)
  accept tenant req b =
      let (l, allowed) =
        if services.rate_enabled
        then services.allow b.limiter tenant env.clock
        else (b.limiter, true) in
      let b' = record b { limiter = l } in
      let t =
        if env.template_refused
        then none
        else first (is_template tenant req.template_code) b.templates in
      if not allowed
      then (b', inl rate_limited)
      else (if req.template_code == ""
          then deliver tenant req none req.title b'
          else with_template tenant req t b')

  -- The answer to a request that has been accepted before, if it has.
  unfoldable pub find_duplicate : ℕ → String → Backend Q L → Option (SendError ⊎ SendResult)
  find_duplicate tenant request b =
      let mid = cached env tenant request b.cache in
      if not (mid == 0)
      then some (inr (duplicate_of mid))
      else (if env.find_refused
          then some (inl database_error)
          else recorded (first (is_record tenant request) b.records))

  unfoldable pub send : ℕ → SendRequest → Backend Q L → Backend Q L × (SendError ⊎ SendResult)
  send tenant req b =
      if length req.recipients == 0
      then (b, inl empty_recipients)
      else (if req.request_id == ""
          then accept tenant req b
          else (elim (find_duplicate tenant req.request_id b) [
            | none ↦ accept tenant req b
            | some answer ↦ (b, answer)
          ]))
