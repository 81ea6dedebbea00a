-- ===== src/Store/Claims.antt =====
-- ClaimPending: which rows it hands out, what it leaves, and that no row is handed out twice.
use axmi_pusher.Base.{
  leb→le, count-take-drop, drop, leb, inr, inl, false, Bool-cases, All, select, nat_eq,
  count-take-le, count-select, count-and-le, length-take, length-select, All-take, All-select, ◌==◌,
  ◌&&◌, [], if◌then◌else◌, arith, ◌≤◌, length, ◌≡◌, count, ◌∷◌, update, ◌+◌, Bool, List, ℕ,
}
use axmi_pusher.Base.Sort.{
  sort_by, IsSorted, IsSorted-sort_by, IsSorted-take, All-sort_by, count-sort_by, length-sort_by,
}
use Prim.Native.Nat.{min}
use mathlib.Core.Option.{get_or}
use axmi_pusher.Models.{msg_pending, msg_sending}
use axmi_pusher.Store.{Message, Store, has_id, is_pending, claim_query, mark_sending, claim_pending}
use axmi_pusher.Store.Ordered.{least_taken, waiting}

abbrev pub pending_row : Message → Bool
pending_row m = is_pending m.status

abbrev pub to_sending : ℕ → Message → Message
to_sending now r = record r { status = msg_sending; updated_at = now }

-- The pending rows of a key.
abbrev pub pending_of : ℕ → List Message → ℕ
pending_of i = count (λ r. has_id i r && pending_row r)

-- No two rows have one key.
abbrev pub HasUniqueIds : List Message → Type 0
HasUniqueIds rows = (i : ℕ) → count (has_id i) rows ≤ 1

claim_after :
    (i j now : ℕ) (rows : List Message)
    → pending_of j (update (has_id i) (to_sending now) rows)
      ≡ (if i == j then 0 else pending_of j rows)
claim_after i j now [] = ground arith
claim_after i j now (r ∷ rows) = ground (arith, claim_after i j now rows)

claim_counts :
    (i now : ℕ) (rows : List Message)
    → count pending_row (update (has_id i) (to_sending now) rows) + pending_of i rows
      ≡ count pending_row rows
claim_counts i now [] = ground arith
claim_counts i now (r ∷ rows) = ground (arith, claim_counts i now rows)

-- The rows that a claim marks are among the pending ones, each once.
pub record CanClaim (ms rows : List Message) : Type 0 where
  pub each : (i : ℕ) → count (has_id i) ms ≤ pending_of i rows
  pub once : (i : ℕ) → pending_of i rows ≤ 1

pub CanClaim-step :
    (now : ℕ) (m : Message) (ms rows : List Message)
    → CanClaim (m ∷ ms) rows
    → CanClaim ms (update (has_id m.message_id) (to_sending now) rows)
CanClaim-step now m ms rows c = record {
  each = λ i. ground (arith, claim_after m.message_id i now rows, c.each i, c.once i);
  once = λ i. ground (arith, claim_after m.message_id i now rows, c.once i);
}

mark_conserves :
    (now : ℕ) (ms rows : List Message)
    → CanClaim ms rows
    → count pending_row (mark_sending now ms rows) + length ms ≡ count pending_row rows
unfolding mark_sending
mark_conserves now [] rows c = omega arith
mark_conserves now (m ∷ ms) rows c = omega (
  arith,
  mark_conserves now ms (update (has_id m.message_id) (to_sending now) rows)
      (CanClaim-step now m ms rows c),
  claim_counts m.message_id now rows,
  taken,
)
  where
    taken : pending_of m.message_id rows ≡ 1
    taken = ground (arith, c.each m.message_id, c.once m.message_id)

-- A claim adds no pending row, and leaves none of a key that it marks.
mark_keeps :
    (now j : ℕ) (ms rows : List Message)
    → pending_of j (mark_sending now ms rows) ≤ pending_of j rows
unfolding mark_sending
mark_keeps now j [] rows = omega arith
mark_keeps now j (m ∷ ms) rows = ground (
  arith,
  mark_keeps now j ms (update (has_id m.message_id) (to_sending now) rows),
  claim_after m.message_id j now rows,
)

mark_clears :
    (now j : ℕ) (ms rows : List Message)
    → 1 ≤ count (has_id j) ms
    → pending_of j (mark_sending now ms rows) ≡ 0
unfolding mark_sending
mark_clears now j [] rows h = absurd (omega arith)
mark_clears now j (m ∷ ms) rows h = elim (Bool-cases (has_id j m)) [
  | inl same ↦ ground (
    arith,
    mark_keeps now j ms (update (has_id m.message_id) (to_sending now) rows),
    claim_after m.message_id j now rows,
  )
  | inr other ↦
      mark_clears now j ms (update (has_id m.message_id) (to_sending now) rows) (ground arith)
]

count-claim_query-le :
    (p : Message → Bool) (limit : ℕ) (rows : List Message)
    → count p (claim_query limit rows) ≤ count (λ r. p r && pending_row r) rows
unfolding claim_query
count-claim_query-le p limit rows = omega (
  arith,
  count-take-le p limit (sort_by (λ m. m.message_id) (select pending_row rows)),
  count-sort_by (λ m. m.message_id) p (select pending_row rows),
  count-select pending_row p rows,
)

pub claim_query-CanClaim :
    (limit : ℕ) (rows : List Message) → HasUniqueIds rows → CanClaim (claim_query limit rows) rows
claim_query-CanClaim limit rows u = record {
  each = λ i. count-claim_query-le (has_id i) limit rows;
  once = λ i. omega (arith, u i, count-and-le (has_id i) pending_row rows);
}

pub length-claim_query :
    (limit : ℕ) (rows : List Message)
    → length (claim_query limit rows) ≡ min limit (count pending_row rows)
unfolding claim_query
length-claim_query limit rows = omega (
  arith,
  length-take limit (sort_by (λ m. m.message_id) (select pending_row rows)),
  length-sort_by (λ m. m.message_id) (select pending_row rows),
  length-select pending_row rows,
)

each_pending :
    (limit : ℕ) (rows : List Message) → All (λ m. m.status ≡ msg_pending) (claim_query limit rows)
unfolding claim_query
each_pending limit rows =
    waiting _
      (All-take _ limit _ (All-sort_by (λ m. m.message_id) _ _ (All-select pending_row rows)))

in_order : (limit : ℕ) (rows : List Message) → IsSorted (λ m. m.message_id) (claim_query limit rows)
unfolding claim_query
in_order limit rows =
    IsSorted-take (λ m. m.message_id) limit _
      (IsSorted-sort_by (λ m. m.message_id) (select pending_row rows))

behind_claimed :
    (j limit now : ℕ) (rows : List Message)
    → count (has_id j) (claim_query limit rows) ≡ 0
    → 1 ≤ pending_of j (mark_sending now (claim_query limit rows) rows)
    → 1 ≤ count (has_id j) (drop limit (sort_by (λ m. m.message_id) (select pending_row rows)))
unfolding claim_query
behind_claimed j limit now rows none_taken left = omega (
  arith,
  left,
  none_taken,
  mark_keeps now j (claim_query limit rows) rows,
  count-take-drop (has_id j) limit (sort_by (λ m. m.message_id) (select pending_row rows)),
  count-sort_by (λ m. m.message_id) (has_id j) (select pending_row rows),
  count-select pending_row (has_id j) rows,
)

least_claimed :
    (i j limit now : ℕ) (rows : List Message)
    → 1 ≤ count (has_id i) (claim_query limit rows)
    → 1 ≤ pending_of j (mark_sending now (claim_query limit rows) rows)
    → i ≤ j
least_claimed i j limit now rows taken left =
    elim (Bool-cases (leb 1 (count (has_id j) (claim_query limit rows)))) [
      | inl both ↦
          absurd
            (omega (arith, left, mark_clears now j (claim_query limit rows) rows (leb→le _ _ both)))
      | inr fresh ↦
          least_taken i j limit (sort_by (λ m. m.message_id) (select pending_row rows))
            (IsSorted-sort_by (λ m. m.message_id) (select pending_row rows))
            (unfold claim_query in taken) (behind_claimed j limit now rows (ground arith) left)
    ]

-- The rows that the store holds after a claim that the database accepts, and those handed out.
abbrev pub after_claim : ℕ → ℕ → Store → Store
after_claim limit now s = (claim_pending false limit now s).0

abbrev pub handed_out : ℕ → ℕ → Store → List Message
handed_out limit now s = get_or (claim_pending false limit now s).1 []

-- With keys that are unique, a claim hands out as many rows as the limit and the pending rows
-- allow, each of them pending as it was read, in the order of their keys, none of them with a
-- larger key than a row that is pending afterwards, and as many rows fewer are pending then.
pub claim_takes_pending :
    (limit now : ℕ) (s : Store)
    → HasUniqueIds s.messages
    → (length (handed_out limit now s) ≡ min limit (count pending_row s.messages))
      × All (λ m. m.status ≡ msg_pending) (handed_out limit now s)
      × IsSorted (λ m. m.message_id) (handed_out limit now s)
      × (count pending_row (after_claim limit now s).messages + length (handed_out limit now s)
          ≡ count pending_row s.messages)
      × ((i j : ℕ)
          → 1 ≤ count (has_id i) (handed_out limit now s)
          → 1 ≤ pending_of j (after_claim limit now s).messages
          → i ≤ j)
unfolding claim_pending
claim_takes_pending limit now s u = (
  length-claim_query limit s.messages,
  each_pending limit s.messages,
  in_order limit s.messages,
  mark_conserves now (claim_query limit s.messages) s.messages
      (claim_query-CanClaim limit s.messages u),
  λ i j taken left. least_claimed i j limit now s.messages taken left,
)

-- Two claims, one after the other, hand out no row of the same key, whatever their limits.
pub claims_disjoint :
    (limit limit' now now' i : ℕ) (s : Store)
    → 1 ≤ count (has_id i) (handed_out limit now s)
    → count (has_id i) (handed_out limit' now' (after_claim limit now s)) ≡ 0
unfolding claim_pending
claims_disjoint limit limit' now now' i s h = omega (
  arith,
  mark_clears now i (claim_query limit s.messages) s.messages h,
  count-claim_query-le (has_id i) limit'
      (mark_sending now (claim_query limit s.messages) s.messages),
)
