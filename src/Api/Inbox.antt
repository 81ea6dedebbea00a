-- ===== src/Api/Inbox.antt =====
-- internal/api/handler/inbox.go: the inbox of the user who asks.
pub mod Delivered
use axmi_pusher.Base.{
  ℕ, Bool, Option, List, [], true, false, some, none, ◌==◌, ◌&&◌, if◌then◌else◌, nat_eq, not, count,
  select, update, length, ◌||◌,
}
use axmi_pusher.Base.Int.{ℤ}
use axmi_pusher.Base.Paging.{slice}
use mathlib.Core.List.{reverse}
use axmi_pusher.Accounts.{Account}
use axmi_pusher.Channel.Inapp.{InappMessage}
use axmi_pusher.Api.{Answer, ok, unauthorized, not_found, server_error}

-- tenant_id = user.ID AND user_id = user.ID
abbrev pub is_in : ℕ → InappMessage → Bool
is_in user m = m.tenant_id == user && m.user_id == user

-- The filter `read`, if it is "true" or "false".
abbrev pub has_state : Option Bool → InappMessage → Bool
has_state none m = true
has_state (some true) m = m.is_read
has_state (some false) m = not m.is_read

-- ListInbox
unfoldable pub list_inbox :
    Bool → Option Account → ℤ → ℤ → Option Bool → List InappMessage → Answer (List InappMessage × ℕ)
list_inbox find_refused none page size state box = unauthorized
list_inbox find_refused (some user) page size state box =
    let rows = select (λ m. is_in user.id m && has_state state m) box in
    if find_refused then server_error else ok (slice page size (reverse rows), length rows)

-- UnreadInboxCount
unfoldable pub unread_inbox_count : Option Account → List InappMessage → Answer ℕ
unread_inbox_count none box = unauthorized
unread_inbox_count (some user) box = ok (count (λ m. is_in user.id m && not m.is_read) box)

abbrev pub marked : ℕ → InappMessage → InappMessage
marked now m = record m { is_read = true; read_at = some now }

-- MarkInboxRead: a write that is refused has met no row either.
unfoldable pub mark_inbox_read :
    Bool → ℕ → Option Account → ℕ → List InappMessage → List InappMessage × Answer (Unit {0})
mark_inbox_read write_refused now none id box = (box, unauthorized)
mark_inbox_read write_refused now (some user) id box =
    if write_refused || count (λ m. m.id == id && is_in user.id m) box == 0
    then (box, not_found)
    else (update (λ m. m.id == id && is_in user.id m) (marked now) box, ok tt)

-- MarkAllInboxRead: whether the rows are written is not checked.
unfoldable pub mark_all_inbox_read :
    Bool → ℕ → Option Account → List InappMessage → List InappMessage × Answer (Unit {0})
mark_all_inbox_read write_refused now none box = (box, unauthorized)
mark_all_inbox_read write_refused now (some user) box = (
  if write_refused then box else update (λ m. is_in user.id m && not m.is_read) (marked now) box,
  ok tt,
)
