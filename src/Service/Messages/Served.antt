-- ===== src/Service/Messages/Served.antt =====
-- What a request leaves in the message table and what its answer says of it.
use axmi_pusher.Service.Messages.Enqueue.{enqueued, rows_made, Added, enqueue_all-adds}
use mathlib.Core.Path.{subst}
use axmi_pusher.Base.{
  ap, sym, ◌∙◌, false, first, text_eq, if◌then◌else◌, Option-cases, some, string_eq, nat_eq, ◌==◌,
  true, Bool, Option, refl, length, arith, ◌≤◌, Text, none, [], List, ◌≡◌, ℕ, String, Bool-cases,
  inl, inr, ◌⊎◌,
}
use axmi_pusher.Models.{IdempotencyRecord, TaskMessage, Template}
use axmi_pusher.Store.{Message}
use axmi_pusher.Service.Messages.{
  database_error, none_enqueued, Recipient, is_record, cached, recorded, Store, is_template,
  template_missing, empty_recipients, rate_limited, channel_invalid, is_registered, inl, Services,
  Backend, SendEnv, SendRequest, SendResult, SendError, resolve_channel,
}
use axmi_pusher.Service.Messages.Send.{
  enqueue_all, send, conclude, deliver, with_template, accept, find_duplicate,
}

-- An answer that announces no new message: an error, or the first message of an earlier request.
unfoldable pub IsOld : SendError ⊎ SendResult → Type 0
IsOld (inl e) = Unit
IsOld (inr r) = (r.duplicate ≡ true) × (r.count ≡ 0)

-- The answer to a request with n messages in the queue: the number, or an error if there are none
-- or the record of the request could not be written.
unfoldable pub Concludes : SendEnv → String → ℕ → SendError ⊎ SendResult → Type 0
Concludes env request n (inl e) =
    ((n ≡ 0) × (e ≡ none_enqueued))
    ⊎ (((request == "") ≡ false) × (env.create_refused ≡ true) × (e ≡ database_error))
Concludes env request n (inr r) = (r.duplicate ≡ false) × (r.count ≡ n) × (1 ≤ n)

NoneNew : Option (SendError ⊎ SendResult) → Type 0
NoneNew none = Unit
NoneNew (some answer) = IsOld answer

recorded-IsOld : (r : Option IdempotencyRecord) → NoneNew (recorded r)
unfolding NoneNew IsOld
recorded-IsOld none = tt
recorded-IsOld (some r) = (refl, refl)

-- What a request to some recipients has left in the message table, with its answer: nothing, or
-- rows of one channel, which is registered if there is a registry.
pub data Served (has : Option (String → Bool)) (env : SendEnv) (tenant : ℕ) (request : String)
    (rs : List Recipient) (before after : List Message) (answer : SendError ⊎ SendResult)
    : Type 0 where
  unserved : after ≡ before → IsOld answer → Served has env tenant request rs before after answer
  delivered :
      (channel : String)
      → ((f : String → Bool) → has ≡ some f → f channel ≡ true)
      → Added tenant channel request (rows_made env channel 0 rs) before after
      → Concludes env request (enqueued env channel 0 rs) answer
      → Served has env tenant request rs before after answer

module _ {Q L : Type 0} (services : Services Q L) (env : SendEnv)
    (delivers : (q : Q) (t : TaskMessage) → (services.publish q t).1 ≡ none) where
  conclude-Concludes :
      (tenant : ℕ) (request : String) (head n : ℕ) (b : Backend Q L)
      → ((conclude services env tenant request head n b).0.store ≡ b.store)
        × Concludes env request n (conclude services env tenant request head n b).1
  unfolding conclude Concludes
  conclude-Concludes tenant request head n b = elim (Bool-cases (n == 0)) [
    | inl zero ↦ rw zero (refl, inl (ground arith, refl))
    | inr some_row ↦ rw some_row (elim (Bool-cases (request == "")) [
      | inl unnamed ↦ rw unnamed (refl, (refl, refl, ground arith))
      | inr named ↦ rw named (elim (Bool-cases env.create_refused) [
        | inl refused ↦ rw refused (refl, inr (named, refl, refl))
        | inr created ↦ rw created (refl, (refl, refl, ground arith))
      ])
    ])
  ]

  refused_with :
      (tenant : ℕ) (request : String) (rs : List Recipient) (ms : List Message) (e : SendError)
      → Served services.has_channel env tenant request rs ms ms (inl e)
  unfolding IsOld
  refused_with tenant request rs ms e = unserved refl tt

  deliver-Served :
      (tenant : ℕ) (req : SendRequest) (t : Option Template) (title : Text) (b : Backend Q L)
      → Served services.has_channel env tenant req.request_id req.recipients b.store.messages
          (deliver services env tenant req t title b).0.store.messages
          (deliver services env tenant req t title b).1
  unfolding deliver
  deliver-Served tenant req t title b =
      let channel =
        resolve_channel services.has_channel services.is_available tenant req.channel t in
      elim (Bool-cases (is_registered services.has_channel channel)) [
        | inr unknown ↦ rw unknown (
            refused_with tenant req.request_id req.recipients b.store.messages
              (channel_invalid channel))
        | inl known ↦ rw known (
            let all = enqueue_all services env 0 tenant channel t title req req.recipients 0 0 b in
            let (counted, added) =
              enqueue_all-adds services env delivers 0 tenant channel t title req req.recipients 0 0
                b in
            let (same, concludes) =
              conclude-Concludes tenant req.request_id all.1.0 all.1.1 all.0 in
            delivered channel (λ f some_f. ap (λ h. is_registered h channel) (sym some_f) ∙ known)
              (subst
                (λ (s : Store).
                  Added tenant channel req.request_id (rows_made env channel 0 req.recipients)
                    b.store.messages s.messages)
                (sym same) added)
              (subst
                (λ n.
                  Concludes env req.request_id n
                    (conclude services env tenant req.request_id all.1.0 all.1.1 all.0).1)
                (omega (arith, counted)) concludes))
      ]

  with_template-Served :
      (tenant : ℕ) (req : SendRequest) (t : Option Template) (b : Backend Q L)
      → Served services.has_channel env tenant req.request_id req.recipients b.store.messages
          (with_template services env tenant req t b).0.store.messages
          (with_template services env tenant req t b).1
  unfolding with_template
  with_template-Served tenant req none b =
      refused_with tenant req.request_id req.recipients b.store.messages template_missing
  with_template-Served tenant req (some t) b =
      deliver-Served tenant req (some t) (if req.title == [] then t.name else req.title) b

  accept-Served :
      (tenant : ℕ) (req : SendRequest) (b : Backend Q L)
      → Served services.has_channel env tenant req.request_id req.recipients b.store.messages
          (accept services env tenant req b).0.store.messages
          (accept services env tenant req b).1
  unfolding accept
  accept-Served tenant req b =
      let limited =
        if services.rate_enabled
        then services.allow b.limiter tenant env.clock
        else (b.limiter, true) in
      let b' : Backend Q L = record b { limiter = limited.0 } in
      let t =
        if env.template_refused
        then none
        else first (is_template tenant req.template_code) b.templates in
      elim (Bool-cases limited.1) [
        | inr refused ↦
            rw refused
              (refused_with tenant req.request_id req.recipients b.store.messages rate_limited)
        | inl allowed ↦ rw allowed (elim (Bool-cases (req.template_code == "")) [
          | inl plain ↦ rw plain (deliver-Served tenant req none req.title b')
          | inr named ↦ rw named (with_template-Served tenant req t b')
        ])
      ]

  find_duplicate-IsOld :
      (tenant : ℕ) (request : String) (b : Backend Q L)
      → NoneNew (find_duplicate services env tenant request b)
  unfolding find_duplicate NoneNew IsOld
  find_duplicate-IsOld tenant request b =
      elim (Bool-cases (cached env tenant request b.cache == 0)) [
        | inr hit ↦ rw hit (refl, refl)
        | inl miss ↦ rw miss (elim (Bool-cases env.find_refused) [
          | inl refused ↦ rw refused tt
          | inr read ↦ rw read (recorded-IsOld (first (is_record tenant request) b.records))
        ])
      ]

  duplicate-Served :
      (tenant : ℕ) (request : String) (rs : List Recipient) (b : Backend Q L)
      (answer : SendError ⊎ SendResult)
      → find_duplicate services env tenant request b ≡ some answer
      → Served services.has_channel env tenant request rs b.store.messages b.store.messages answer
  unfolding NoneNew
  duplicate-Served tenant request rs b answer h =
      unserved refl (subst NoneNew h (find_duplicate-IsOld tenant request b))

  -- Whatever its environment refuses, a request leaves the message table as it was, and is answered by
  -- an error or as a duplicate with a count of 0, or it leaves new rows only. These follow the rows
  -- that were there, which stay as they were, belong to its tenant, carry its request id and one
  -- channel, which is registered if there is a registry, and wait to be claimed. There is one for each recipient that the
  -- channel sends to and whose row the database takes, and the request is then answered by the number
  -- of those whose event it takes as well, by an error if that is 0, or by one if it carries a
  -- request id whose record the database refuses. Publish must not fail.
  pub send-Served :
      (tenant : ℕ) (req : SendRequest) (b : Backend Q L)
      → Served services.has_channel env tenant req.request_id req.recipients b.store.messages
          (send services env tenant req b).0.store.messages
          (send services env tenant req b).1
  unfolding send
  send-Served tenant req b = elim (Bool-cases (length req.recipients == 0)) [
    | inl nobody ↦
        rw nobody
          (refused_with tenant req.request_id req.recipients b.store.messages empty_recipients)
    | inr somebody ↦ rw somebody (elim (Bool-cases (req.request_id == "")) [
      | inl unnamed ↦ rw unnamed (accept-Served tenant req b)
      | inr named ↦
          rw named (elim (Option-cases (find_duplicate services env tenant req.request_id b)) [
            | inl fresh ↦ rw fresh (accept-Served tenant req b)
            | inr (answer, again) ↦
                rw again (duplicate-Served tenant req.request_id req.recipients b answer again)
          ])
    ])
  ]
