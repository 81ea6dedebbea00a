-- ===== src/Store/Query.antt =====
-- The reading side of internal/store/sqlite.go: pages of messages, and counts by status and channel.
pub mod Laws
use mathlib.Core.List.{reverse}
use axmi_pusher.Base.{
  Eq, [], ◌∷◌, ◌+◌, nat_eq, string_eq, pair_eq, if◌then◌else◌, ℕ, String, Text, Bool, true, false,
  ◌&&◌, Option, none, some, List, leb, ◌==◌, select, length,
}
use axmi_pusher.Base.Int.{ℤ}
use axmi_pusher.Base.Assoc.{Assoc, lookup, insert}
use axmi_pusher.Base.Sort.{sort_by}
use axmi_pusher.Base.Paging.{slice, size_of}
use axmi_pusher.Models.{MsgStatus}
use axmi_pusher.Store.{Message, Store, status_eq}

-- MessageFilter; its field TemplateCode is not read by the query. An empty text is no condition.
pub record MessageFilter : Type 0 where
  pub channel : String
  pub status : Option MsgStatus
  pub recipient : String
  pub since : Option ℕ
  pub until : Option ℕ

abbrev if_given : String → String → Bool
if_given want have = if want == "" then true else have == want

abbrev status_is : Option MsgStatus → MsgStatus → Bool
status_is none have = true
status_is (some want) have = have == want

abbrev from_time : Option ℕ → ℕ → Bool
from_time none t = true
from_time (some since) t = leb since t

abbrev to_time : Option ℕ → ℕ → Bool
to_time none t = true
to_time (some until) t = leb t until

unfoldable pub matches_filter : ℕ → MessageFilter → Message → Bool
matches_filter tenant f m =
    m.tenant_id == tenant
    && if_given f.channel m.channel
    && status_is f.status m.status
    && if_given f.recipient m.recipient
    && from_time f.since m.created_at
    && to_time f.until m.created_at

-- Find with Order("message_id DESC"), and Count; either statement may be refused.
unfoldable pub query_messages :
    Bool → Bool → ℕ → MessageFilter → ℤ → ℤ → Store → Option (List Message × ℕ)
query_messages count_refused find_refused tenant f page size s =
    let rows = select (matches_filter tenant f) s.messages in
    if count_refused
    then none
    else if find_refused
    then none
    else some (slice page size (reverse (sort_by (λ m. m.message_id) rows)), length rows)

-- WHERE tenant_id = ? AND created_at >= ? AND created_at <= ?
abbrev pub in_range : ℕ → ℕ → ℕ → Message → Bool
in_range tenant since until m =
    m.tenant_id == tenant && leb since m.created_at && leb m.created_at until

abbrev pub or_0 : Option ℕ → ℕ
or_0 none = 0
or_0 (some n) = n

module _ {K : Type 0} ⦃e : Eq K⦄ where
  -- COUNT(*) … GROUP BY `k`, as the map that Scan fills: a row more for the group of each row.
  unfoldable pub group_counts : (Message → K) → List Message → Assoc K ℕ
  group_counts k [] = []
  group_counts k (m ∷ rows) =
      let rest = group_counts k rows in insert (k m) (or_0 (lookup (k m) rest) + 1) rest

unfoldable pub stats_by_status : Bool → ℕ → ℕ → ℕ → Store → Option (Assoc MsgStatus ℕ)
stats_by_status refused tenant since until s =
    if refused
    then none
    else some (group_counts (λ m. m.status) (select (in_range tenant since until) s.messages))

abbrev pub or_empty : Option (Assoc MsgStatus ℕ) → Assoc MsgStatus ℕ
or_empty none = []
or_empty (some m) = m

-- The loop over the groups of (channel, status): a map of maps.
unfoldable pub nest : Assoc (String × MsgStatus) ℕ → Assoc String (Assoc MsgStatus ℕ)
nest [] = []
nest (((c, st), n) ∷ groups) =
    let out = nest groups in insert c (insert st n (or_empty (lookup c out))) out

unfoldable pub stats_by_channel :
    Bool → ℕ → ℕ → ℕ → Store → Option (Assoc String (Assoc MsgStatus ℕ))
stats_by_channel refused tenant since until s =
    if refused
    then none
    else some (
        nest (
          group_counts (λ m. (m.channel, m.status))
            (select (in_range tenant since until) s.messages)))
