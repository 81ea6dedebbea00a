-- ===== src/Store/Query/Laws.antt =====
-- What a page of messages and a table of counts hold.
use axmi_pusher.Base.Int.{ℤ}
use mathlib.Core.List.{reverse, reverse-cons}
use axmi_pusher.Base.{
  length-select, All-select, ◌≤◌, refl, [], ◌∙◌, length, ◌+◌, true, arith, ◌&&◌, All-append, select,
  ◌∷◌, ◌==◌, some, ◌≡◌, All, count, Bool, false, List, Eq, ℕ,
}
use axmi_pusher.Base.Assoc.{Assoc, lookup, lookup-insert}
use axmi_pusher.Base.Sort.{sort_by, All-sort_by}
use axmi_pusher.Base.Paging.{slice, size_of, All-slice, length-slice-le}
use axmi_pusher.Models.{MsgStatus}
use axmi_pusher.Store.{Message, Store, status_eq}
use axmi_pusher.Store.Query.{
  ℤ, MessageFilter, matches_filter, query_messages, group_counts, or_0, in_range, stats_by_status,
}

All-reverse {ℓ} : {A : Type ℓ} (P : A → Type 0) (xs : List A) → All P xs → All P (reverse xs)
All-reverse P [] h = h
All-reverse P (x ∷ xs) h =
    rw reverse-cons (All-append P (reverse xs) (x ∷ []) (All-reverse P xs h.1) (h.0, tt))

-- A page of messages that the database grants holds rows that match the filter, of the tenant that
-- asks and no other, and at most as many as the size; the total is the number of all that match.
pub query_messages_page :
    (tenant : ℕ) (f : MessageFilter) (page size : ℤ) (s : Store) (rows : List Message) (total : ℕ)
    → query_messages false false tenant f page size s ≡ some (rows, total)
    → All (λ m. (matches_filter tenant f m ≡ true) × (m.tenant_id ≡ tenant)) rows
      × (length rows ≤ size_of size)
      × (total ≡ count (matches_filter tenant f) s.messages)
unfolding query_messages
query_messages_page tenant f page size s rows total h =
    let found = select (matches_filter tenant f) s.messages in
    let listed = slice page size (reverse (sort_by (λ m. m.message_id) found)) in
    let same : listed ≡ rows = cc in
    rw (← same) (
      All-slice _ page size _
          (All-reverse _ _ (All-sort_by (λ m. m.message_id) _ found (all_match s.messages))),
      length-slice-le page size _,
      ground (arith, length-select (matches_filter tenant f) s.messages),
    )
  where
    matched : (m : Message) → matches_filter tenant f m ≡ true → m.tenant_id ≡ tenant
    matched m e = unfold matches_filter in ground arith

    all_match :
        (rows : List Message)
        → All
            (λ m. (matches_filter tenant f m ≡ true) × (m.tenant_id ≡ tenant))
            (select (matches_filter tenant f) rows)
    all_match rows =
        weaken (select (matches_filter tenant f) rows) (All-select (matches_filter tenant f) rows)
      where
        weaken :
            (ms : List Message)
            → All (λ m. matches_filter tenant f m ≡ true) ms
            → All (λ m. (matches_filter tenant f m ≡ true) × (m.tenant_id ≡ tenant)) ms
        weaken [] a = tt
        weaken (m ∷ ms) a = ((a.0, matched m a.0), weaken ms a.1)

module _ {K : Type 0} ⦃e : Eq K⦄ where
  -- A group's count is the number of its rows; a group with no row is not in the map.
  lookup-group_counts :
      (k : Message → K) (j : K) (rows : List Message)
      → or_0 (lookup j (group_counts k rows)) ≡ count (λ m. k m == j) rows
  unfolding group_counts lookup
  lookup-group_counts k j [] = refl
  lookup-group_counts k j (m ∷ rows) = ground (
    arith,
    lookup-insert (k m) j (or_0 (lookup (k m) (group_counts k rows)) + 1) (group_counts k rows),
    lookup-group_counts k j rows,
    e.beq_iff (k m) j,
  )

count_select {ℓ} :
    {A : Type ℓ} (p q : A → Bool) (xs : List A) → count q (select p xs) ≡ count (λ x. p x && q x) xs
count_select p q [] = refl
count_select p q (x ∷ xs) = ground (arith, count_select p q xs)

-- The statistics by status count, for each status, the messages of the tenant in the range that have
-- it; a status that the map lacks has none.
pub stats_by_status_counts :
    (tenant since until : ℕ) (s : Store) (status : MsgStatus) (out : Assoc MsgStatus ℕ)
    → stats_by_status false tenant since until s ≡ some out
    → or_0 (lookup status out)
      ≡ count (λ m. in_range tenant since until m && (m.status == status)) s.messages
unfolding stats_by_status
stats_by_status_counts tenant since until s status out h =
    let groups = group_counts (λ m. m.status) (select (in_range tenant since until) s.messages) in
    let same : groups ≡ out = cc in
    rw (← same) (
      lookup-group_counts (λ m. m.status) status (select (in_range tenant since until) s.messages)
      ∙ count_select (in_range tenant since until) (λ m. m.status == status) s.messages)
