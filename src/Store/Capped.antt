-- ===== src/Store/Capped.antt =====
-- How often the message of a row has been handed out, row by row.
use mathlib.Core.Path.{subst}
use axmi_pusher.Base.{
  nat_beq_iff, ◌&&◌, inr, count-and-le, inl, Bool-cases, refl, [], count-update_same, ◌∷◌, count,
  update, ◌+◌, arith, true, All-update, All, ◌≡◌, List, ◌<◌, ◌≤◌, ℕ,
}
use axmi_pusher.Store.{Message, has_id, is_pending, is_stale, mark_sending, reap_row}
use axmi_pusher.Store.Claims.{
  HasUniqueIds, CanClaim, CanClaim-step, pending_of, pending_row, to_sending,
}

-- A row of the table that has been handed out n times: each recovery allows for one more, and a row
-- that waits has been recovered as often as it has been handed out, and less often than the limit.
pub record IsCapped (max n : ℕ) (m : Message) : Type 0 where
  pub once : n ≤ m.retry_count + 1
  pub left : is_pending m.status ≡ true → (n ≤ m.retry_count) × (m.retry_count < max)

pub none_above :
    (i n : ℕ) (rows : List Message)
    → All (λ m. m.message_id < n) rows
    → n ≤ i
    → count (has_id i) rows ≡ 0
none_above i n [] h p = refl
none_above i n (m ∷ rows) h p = ground (arith, none_above i n rows)

pub same_handed :
    (max : ℕ) (h k : ℕ → ℕ) (rows : List Message)
    → ((i : ℕ) → h i ≡ k i)
    → All (λ m. IsCapped max (h m.message_id) m) rows
    → All (λ m. IsCapped max (k m.message_id) m) rows
same_handed max h k [] e c = tt
same_handed max h k (m ∷ rows) e c =
    (subst (λ n. IsCapped max n m) (e m.message_id) c.0, same_handed max h k rows e c.1)

pub reap_row-IsCapped :
    (lease max now written n : ℕ) (m : Message)
    → is_stale lease now m ≡ true
    → IsCapped max n m
    → IsCapped max n (reap_row max written m)
unfolding is_stale reap_row
reap_row-IsCapped lease max now written n m h c = record {
  once = omega (arith, c.once);
  left = λ waits. (omega (arith, c.once), ground arith);
}

-- The rows of a key that has as many pending rows as rows are all pending.
waiting_only :
    (i : ℕ) (rows : List Message)
    → count (has_id i) rows ≤ pending_of i rows
    → All (λ m. has_id i m ≡ true → is_pending m.status ≡ true) rows
waiting_only i [] p = tt
waiting_only i (m ∷ rows) p =
    let le = count-and-le (has_id i) pending_row rows in
    (λ hit. ground arith, waiting_only i rows (ground arith))

claim_one :
    (max now : ℕ) (h : ℕ → ℕ) (m : Message) (rows : List Message)
    → All (λ r. has_id m.message_id r ≡ true → is_pending r.status ≡ true) rows
    → All (λ r. IsCapped max (h r.message_id) r) rows
    → All
        (λ r. IsCapped max (h r.message_id + count (has_id r.message_id) (m ∷ [])) r)
        (update (has_id m.message_id) (to_sending now) rows)
claim_one max now h m [] w c = tt
claim_one max now h m (r ∷ rows) w c = elim (Bool-cases (has_id m.message_id r)) [
  | inl hit ↦
      let (waited, more) = c.0.left (w.0 hit) in
      rw hit (
        record { once = ground arith; left = λ waits. absurd (ground arith) },
        claim_one max now h m rows w.1 c.1,
      )
  | inr miss ↦
      let other : count (has_id r.message_id) (m ∷ []) ≡ 0 = ground arith in
      rw (miss, other)
        (subst (λ n. IsCapped max n r) (omega arith) c.0, claim_one max now h m rows w.1 c.1)
]

pub claim_rows :
    (max now bound : ℕ) (h : ℕ → ℕ) (ms rows : List Message)
    → CanClaim ms rows
    → HasUniqueIds rows
    → All (λ m. m.message_id < bound) rows
    → All (λ m. IsCapped max (h m.message_id) m) rows
    → HasUniqueIds (mark_sending now ms rows)
      × All (λ m. m.message_id < bound) (mark_sending now ms rows)
      × All
          (λ m. IsCapped max (h m.message_id + count (has_id m.message_id) ms) m)
          (mark_sending now ms rows)
unfolding mark_sending
claim_rows max now bound h [] rows c u b k =
    (u, b, same_handed max h (λ i. h i + 0) rows (λ i. omega arith) k)
claim_rows max now bound h (m ∷ ms) rows c u b k =
    let (u', b', k') =
      claim_rows max now bound (λ i. h i + count (has_id i) (m ∷ [])) ms
        (update (has_id m.message_id) (to_sending now) rows) (CanClaim-step now m ms rows c)
        (λ i.
          rw (count-update_same (has_id i) (has_id m.message_id) (to_sending now) rows (λ r. refl))
            (u i))
        (All-update _ (has_id m.message_id) (to_sending now) rows b (λ r _ h. h))
        (claim_one max now h m rows
          (waiting_only m.message_id rows (ground (arith, u m.message_id, c.each m.message_id)))
          k) in
    (
      u',
      b',
      same_handed max (λ i. h i + count (has_id i) (m ∷ []) + count (has_id i) ms)
          (λ i. h i + count (has_id i) (m ∷ ms)) _ (λ i. ground arith) k',
    )

pub pending_bounded :
    (max i : ℕ) (h : ℕ → ℕ) (rows : List Message)
    → All (λ m. IsCapped max (h m.message_id) m) rows
    → 1 ≤ pending_of i rows
    → h i < max
pending_bounded max i h [] c p = absurd (omega arith)
pending_bounded max i h (m ∷ rows) c p = elim (Bool-cases (has_id i m && pending_row m)) [
  | inl hit ↦
      let (waited, more) = c.0.left (ground arith) in
      let same : m.message_id ≡ i = (nat_beq_iff m.message_id i).0 (ground arith) in
      subst (λ k. h k < max) same (omega arith)
  | inr miss ↦ pending_bounded max i h rows c.1 (ground arith)
]
