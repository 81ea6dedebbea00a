-- ===== src/Api/Inbox/Delivered.antt =====
-- Whose inbox a message of the in-app channel comes to.
use axmi_pusher.Base.{
  ℕ, Bool, Option, List, [], ◌∷◌, true, some, none, inl, inr, ◌⊎◌, ◌≡◌, refl, arith, ◌==◌, ◌&&◌,
  ◌+◌, if◌then◌else◌, nat_eq, string_eq, first, not, count, count-append, first_passes, read_first,
  Bool-cases, nat_beq_iff, ap, sym,
}
use mathlib.Core.Path.{subst}
use axmi_pusher.Models.{TaskMessage, is_active}
use axmi_pusher.Accounts.{Account, Table}
use axmi_pusher.Channel.Inapp.{
  InappMessage, InappError, inapp_send, as_target, targets_of, put_all, put_each, inapp_row,
}
use axmi_pusher.Api.{ok}
use axmi_pusher.Api.Inbox.{unread_inbox_count, is_in}

-- The unread messages that a user is told of.
abbrev pub unread : ℕ → List InappMessage → ℕ
unread user box = count (λ m. is_in user m && not m.is_read) box

-- A message for one active user, who is named by the recipient: "all" is the sender. It is in the
-- inbox of this user only if that is the sender too.
pub record Delivered (msg : TaskMessage) (users : Table) (before after : List InappMessage)
    : Type 0 where
  pub receiver : Account
  pub named :
      (if msg.recipient == "all"
        then receiver.id == msg.tenant_id
        else receiver.email == msg.recipient)
      ≡ true
  pub active : is_active receiver.status ≡ true
  pub counts :
      (user : Account)
      → unread_inbox_count (some user) after
        ≡ ok (
            unread user.id before
            + (if user.id == receiver.id && user.id == msg.tenant_id then 1 else 0))

-- The one target of a message.
record IsTarget (msg : TaskMessage) (us : List Account) : Type 0 where
  target : Account
  single : us ≡ target ∷ []
  named :
      (if msg.recipient == "all" then target.id == msg.tenant_id else target.email == msg.recipient)
      ≡ true
  active : is_active target.status ≡ true

module _ (msg : TaskMessage) (find_refused : Bool) (users : Table) (us : List Account) where
  found-IsTarget :
      (q : Account → Bool) (e : InappError) (o : Option Account)
      → (if find_refused then none else first (λ u. q u && is_active u.status) users) ≡ o
      → as_target e o ≡ inr us
      → ((u : Account)
          → q u ≡ true
          → (if msg.recipient == "all" then u.id == msg.tenant_id else u.email == msg.recipient)
            ≡ true)
      → IsTarget msg us
  unfolding as_target
  found-IsTarget q e none read h name = cc
  found-IsTarget q e (some u) read h name =
      let both =
        first_passes (λ u. q u && is_active u.status) users u
          (read_first find_refused (λ u. q u && is_active u.status) users u read) in
      record {
        target = u;
        single = ground arith;
        named = name u (ground arith);
        active = ground arith;
      }

  targets_of-IsTarget : targets_of find_refused msg users ≡ inr us → IsTarget msg us
  unfolding targets_of
  targets_of-IsTarget h = elim (Bool-cases (msg.recipient == "all")) [
    | inl all ↦ found-IsTarget (λ u. u.id == msg.tenant_id) _ _ refl (rw all at h) (λ u e. rw all e)
    | inr one ↦
        found-IsTarget (λ u. u.email == msg.recipient) _ _ refl (rw one at h) (λ u e. rw one e)
  ]

module _ (write_refused : ℕ → Bool) (now id : ℕ) (msg : TaskMessage) (users : Table)
    (box : List InappMessage) where
  one-Delivered :
      (u : Account)
      → (if msg.recipient == "all" then u.id == msg.tenant_id else u.email == msg.recipient) ≡ true
      → is_active u.status ≡ true
      → (put_each write_refused now msg id (u ∷ []) box).1 ≡ none
      → Delivered msg users box (put_each write_refused now msg id (u ∷ []) box).0
  unfolding put_each unread_inbox_count
  one-Delivered u named active h = elim (Bool-cases (write_refused id)) [
    | inl no_row ↦ absurd (ground arith)
    | inr made ↦ rw made (record {
      receiver = u;
      named = named;
      active = active;
      counts = λ user. ap ok (
          ground (
            arith,
            count-append (λ m. is_in user.id m && not m.is_read) box
                (inapp_row write_refused now msg id u ∷ []),
            nat_beq_iff msg.tenant_id user.id,
            nat_beq_iff user.id msg.tenant_id,
            nat_beq_iff u.id user.id,
            nat_beq_iff user.id u.id,
          ));
    })
  ]

  put-Delivered :
      (find_refused : Bool) (r : InappError ⊎ List Account)
      → targets_of find_refused msg users ≡ r
      → (put_all write_refused now msg id box r).1 ≡ none
      → Delivered msg users box (put_all write_refused now msg id box r).0
  unfolding put_all
  put-Delivered find_refused (inl e) read h = cc
  put-Delivered find_refused (inr []) read h = cc
  put-Delivered find_refused (inr (u ∷ us)) read h =
      let t = targets_of-IsTarget msg find_refused users (u ∷ us) read in
      subst
        (λ us.
          (put_each write_refused now msg id us box).1 ≡ none
          → Delivered msg users box (put_each write_refused now msg id us box).0)
        (sym t.single) (one-Delivered t.target t.named t.active) h

-- A message that the in-app channel sends without an error is for one active user, whom its recipient
-- names, and it counts as unread for that user only if this is the sender: the inbox of a user holds
-- the rows whose tenant is that user. A message to another user's address is unread for nobody.
pub inapp_send-Delivered :
    (write_refused : ℕ → Bool) (now id : ℕ) (msg : TaskMessage) (find_refused : Bool)
    (users : Table) (box : List InappMessage)
    → (inapp_send write_refused now msg find_refused id users box).1 ≡ none
    → Delivered msg users box (inapp_send write_refused now msg find_refused id users box).0
unfolding inapp_send
inapp_send-Delivered write_refused now id msg find_refused users box h =
    elim (Bool-cases (msg.recipient == "")) [
      | inl nobody ↦ absurd (ground arith)
      | inr given ↦
          rw given
            (put-Delivered write_refused now id msg users box find_refused _ refl (rw given at h))
    ]
