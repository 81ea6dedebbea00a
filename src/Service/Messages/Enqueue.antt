-- ===== src/Service/Messages/Enqueue.antt =====
-- The rows that a request leaves in the message table, when Publish does not fail.
use mathlib.Core.Path.{subst}
use axmi_pusher.Base.Keys.{codes}
use mathlib.Core.List.{append-nil, append_assoc}
use axmi_pusher.Base.{
  true, false, ◌||◌, not, ◌==◌, ◌&&◌, if◌then◌else◌, Bool, text_eq, string_eq, nat_eq, Option, ◌∷◌,
  refl, length, arith, ap, Text, ◌∙◌, All, sym, ◌+◌, ◌++◌, none, [], List, ◌≡◌, ℕ, String,
  All-append, length-append, Bool-cases, inl, inr,
}
use axmi_pusher.Models.{TaskMessage, Template, msg_pending}
use axmi_pusher.Store.{Message, save_message, save_event}
use axmi_pusher.Service.Messages.{
  codes, trims_to_empty, inl, Services, Backend, SendEnv, SendRequest, Recipient,
}
use axmi_pusher.Service.Messages.Send.{
  tally, enqueue_one, hand_over, enqueue_all, is_skipped, content_for,
}

-- A row of this request, ready to be claimed.
unfoldable pub IsRowOf : ℕ → String → String → Message → Type 0
IsRowOf tenant channel request m =
    (m.tenant_id ≡ tenant)
    × ((m.channel ≡ channel) × ((m.request_id ≡ request) × (m.status ≡ msg_pending)))

-- Whom a channel sends to: email to everyone, the others to those with a target.
unfoldable pub is_addressed : String → Recipient → Bool
is_addressed channel r = channel == "email" || not (trims_to_empty (codes r.target))

-- How many of the recipients, from the i-th on, get a row in the message table, and how many of
-- these a message with its event in the queue.
unfoldable pub rows_made : SendEnv → String → ℕ → List Recipient → ℕ
unfolding is_addressed
rows_made env channel i [] = 0
rows_made env channel i (r ∷ rs) =
    let rest = rows_made env channel (i + 1) rs in
    if is_addressed channel r && not (env.save_refused i) then 1 + rest else rest

unfoldable pub enqueued : SendEnv → String → ℕ → List Recipient → ℕ
unfolding is_addressed
enqueued env channel i [] = 0
enqueued env channel i (r ∷ rs) =
    let rest = enqueued env channel (i + 1) rs in
    if is_addressed channel r && (not (env.save_refused i) && not (env.event_refused i))
    then 1 + rest
    else rest

-- The rows of a later table are those of an earlier one and n rows of the request.
pub record Added (tenant : ℕ) (channel request : String) (n : ℕ) (before after : List Message)
    : Type 0 where
  pub new : List Message
  pub grown : after ≡ before ++ new
  pub of_request : All (IsRowOf tenant channel request) new
  pub size : length new ≡ n

pub nothing-Added :
    (tenant : ℕ) (channel request : String) (ms : List Message)
    → Added tenant channel request 0 ms ms
nothing-Added tenant channel request ms = record {
  new = [];
  grown = sym (append-nil ms);
  of_request = tt;
  size = refl;
}

pub add_more :
    {tenant n k : ℕ} {channel request : String} {a b c : List Message}
    → Added tenant channel request n a b
    → Added tenant channel request k b c
    → Added tenant channel request (n + k) a c
add_more {n} {k} {a} x y = record {
  new = x.new ++ y.new;
  grown = y.grown ∙ ap (λ t. t ++ y.new) x.grown ∙ append_assoc a x.new y.new;
  of_request = All-append _ x.new y.new x.of_request y.of_request;
  size = omega (arith, length-append x.new y.new, x.size, y.size);
}

one-Added :
    (tenant : ℕ) (channel request : String) (m : Message) (ms : List Message)
    → IsRowOf tenant channel request m
    → Added tenant channel request 1 ms (ms ++ (m ∷ []))
one-Added tenant channel request m ms h = record {
  new = m ∷ [];
  grown = refl;
  of_request = (h, tt);
  size = refl;
}

module _ {Q L : Type 0} (services : Services Q L) (env : SendEnv)
    (delivers : (q : Q) (t : TaskMessage) → (services.publish q t).1 ≡ none) where
  hand_over-delivered :
      (i : ℕ) (task : TaskMessage) (b : Backend Q L)
      → hand_over services env i task b
        ≡ (record b { queue = (services.publish b.queue task).0 }, inr task.message_id)
  unfolding hand_over
  hand_over-delivered i task b = rw (delivers b.queue task, hand_over) refl

  enqueue_one-adds :
      (i tenant : ℕ) (channel : String) (title content : Text) (recipient request priority : String)
      (b : Backend Q L)
      → Added tenant channel request
          (if env.save_refused i then 0 else 1)
          b.store.messages
          (enqueue_one services env i tenant channel title content recipient request priority
            b).0.store.messages
  unfolding enqueue_one save_message save_event IsRowOf
  enqueue_one-adds i tenant channel title content recipient request priority b =
      elim (Bool-cases (env.save_refused i)) [
        | inl refused ↦
            rw (refused, enqueue_one, save_message)
              (nothing-Added tenant channel request b.store.messages)
        | inr kept ↦
            rw (kept, enqueue_one, save_message)
              (elim (Bool-cases (env.event_refused i)) [
                | inl refused ↦
                    rw (refused, save_event)
                      (rw (kept, save_message)
                        (one-Added tenant channel request _ b.store.messages
                          (refl, (refl, (refl, refl)))))
                | inr noted ↦
                    rw (noted, hand_over-delivered, save_event)
                      (rw (kept, save_message)
                        (one-Added tenant channel request _ b.store.messages
                          (refl, (refl, (refl, refl)))))
              ])
      ]

  enqueue_one-tally :
      (i tenant : ℕ) (channel : String) (title content : Text) (recipient request priority : String)
      (b : Backend Q L) (head n : ℕ)
      → (tally
          (enqueue_one services env i tenant channel title content recipient request priority b).1
          head
          n).1
        ≡ n + (if not (env.save_refused i) && not (env.event_refused i) then 1 else 0)
  unfolding enqueue_one save_message save_event tally
  enqueue_one-tally i tenant channel title content recipient request priority b head n =
      elim (Bool-cases (env.save_refused i)) [
        | inl refused ↦ rw (refused, enqueue_one, save_message) (omega arith)
        | inr kept ↦
            rw (kept, enqueue_one, save_message)
              (elim (Bool-cases (env.event_refused i)) [
                | inl refused ↦ rw (refused, save_event) (omega arith)
                | inr noted ↦ rw (noted, hand_over-delivered, save_event) refl
              ])
      ]

  pub enqueue_all-adds :
      (i tenant : ℕ) (channel : String) (t : Option Template) (title : Text) (req : SendRequest)
      (rs : List Recipient) (head n : ℕ) (b : Backend Q L)
      → ((enqueue_all services env i tenant channel t title req rs head n b).1.1
          ≡ n + enqueued env channel i rs)
        × Added tenant channel req.request_id
            (rows_made env channel i rs)
            b.store.messages
            (enqueue_all services env i tenant channel t title req rs head n b).0.store.messages
  unfolding enqueue_all enqueued rows_made is_addressed
  enqueue_all-adds i tenant channel t title req [] head n b =
      (omega arith, nothing-Added tenant channel req.request_id b.store.messages)
  enqueue_all-adds i tenant channel t title req (r ∷ rs) head n b =
      elim (Bool-cases (is_skipped services env channel r)) [
        | inl skip ↦
            let silent : (channel == "email" || not (trims_to_empty (codes r.target))) ≡ false =
              ground arith in
            rw (skip, silent, enqueue_all)
              (enqueue_all-adds (i + 1) tenant channel t title req rs head n b)
        | inr go ↦
            let heard : (channel == "email" || not (trims_to_empty (codes r.target))) ≡ true =
              ground arith in
            rw (go, heard, enqueue_all)
              (let (b', e) =
                  enqueue_one services env i tenant channel title
                    (content_for services env t req.content r) r.target req.request_id req.priority
                    b in
                let (counted, added) =
                  enqueue_all-adds (i + 1) tenant channel t title req rs (tally e head n).0
                    (tally e head n).1 b' in
                let tallied =
                  enqueue_one-tally i tenant channel title
                    (content_for services env t req.content r) r.target req.request_id req.priority
                    b head n in
                (
                  ground (arith, counted, tallied),
                  subst
                      (λ k.
                        Added tenant channel req.request_id k b.store.messages
                          (enqueue_all services env (i + 1) tenant channel t title req rs
                            (tally e head n).0 (tally e head n).1 b').0.store.messages)
                      (made i (rows_made env channel (i + 1) rs))
                      (add_more
                        (enqueue_one-adds i tenant channel title
                          (content_for services env t req.content r) r.target req.request_id
                          req.priority b)
                        added),
                ))
      ]
    where
      made :
          (i k : ℕ)
          → (if env.save_refused i then 0 else 1) + k
            ≡ (if not (env.save_refused i) then 1 + k else k)
      made i k = ground arith
