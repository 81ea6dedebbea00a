-- ===== src/Channel/Inapp.antt =====
-- internal/channel/inapp.go: the sender that writes to the inboxes of the users.
use axmi_pusher.Base.{
  ℕ, String, Text, Bool, Option, List, [], ◌∷◌, ◌++◌, false, some, none, inl, inr, ◌⊎◌, ◌==◌, ◌&&◌,
  ◌+◌, if◌then◌else◌, nat_eq, string_eq, first,
}
use axmi_pusher.Models.{TaskMessage, is_active}
use axmi_pusher.Accounts.{Account, Table}

-- InappMessage
pub record InappMessage : Type 0 where
  pub id : ℕ
  pub tenant_id : ℕ
  pub user_id : ℕ
  pub user_email : String
  pub title : Text
  pub content : Text
  pub is_read : Bool
  pub read_at : Option ℕ
  pub created_at : ℕ

pub data InappError : Type 0 where
  empty_recipient sender_not_found recipient_not_found no_targets write_failed : InappError

unfoldable pub as_target : InappError → Option Account → InappError ⊎ List Account
as_target e none = inl e
as_target e (some u) = inr (u ∷ [])

-- The users that a recipient stands for: the sender, or the user with an address.
unfoldable pub targets_of : Bool → TaskMessage → Table → InappError ⊎ List Account
unfolding as_target
targets_of find_refused msg users =
    if msg.recipient == "all"
    then as_target sender_not_found (
        if find_refused
        then none
        else first (λ u. u.id == msg.tenant_id && is_active u.status) users)
    else as_target recipient_not_found (
        if find_refused
        then none
        else first (λ u. u.email == msg.recipient && is_active u.status) users)

module _ (write_refused : ℕ → Bool) (now : ℕ) (msg : TaskMessage) where
  abbrev pub inapp_row : ℕ → Account → InappMessage
  inapp_row id u = record {
    id = id;
    tenant_id = msg.tenant_id;
    user_id = u.id;
    user_email = u.email;
    title = msg.title;
    content = msg.content;
    is_read = false;
    read_at = none;
    created_at = now;
  }

  -- A row for each target, with the keys from `id` on; the first that is refused ends the loop.
  unfoldable pub put_each :
      ℕ → List Account → List InappMessage → List InappMessage × Option InappError
  put_each id [] box = (box, none)
  put_each id (u ∷ us) box =
      let rest = put_each (id + 1) us (box ++ (inapp_row id u ∷ [])) in
      if write_refused id then (box, some write_failed) else rest

  unfoldable pub put_all :
      ℕ → List InappMessage → InappError ⊎ List Account → List InappMessage × Option InappError
  unfolding put_each
  put_all id box (inl e) = (box, some e)
  put_all id box (inr []) = (box, some no_targets)
  put_all id box (inr (u ∷ us)) = put_each id (u ∷ us) box

  -- Send
  unfoldable pub inapp_send :
      Bool → ℕ → Table → List InappMessage → List InappMessage × Option InappError
  unfolding targets_of put_all
  inapp_send find_refused id users box =
      if msg.recipient == ""
      then (box, some empty_recipient)
      else put_all id box (targets_of find_refused msg users)
