-- ===== src/Store/Leases.antt =====
-- The life of a row: no sequence of saves, claims, reports of workers, late ones too, and recoveries
-- of leases gives two rows one key, or hands one message out more often than the limit.
use mathlib.Core.Path.{subst}
use axmi_pusher.Base.{
  sym, leb, leb→le, inr, count-and-le, inl, Bool-cases, refl, All-append, [], count-update_same,
  ◌∷◌, count-append, count, Text, update, ◌+◌, arith, All-update, All, ◌≡◌, false, List, ◌<◌, ◌≤◌,
  Bool, ℕ,
}
use axmi_pusher.Models.{MsgStatus, msg_pending}
use axmi_pusher.Store.{
  Message, Store, has_id, is_pending, is_stale, claim_query, claim_pending, save_message,
  update_status, reap_row, reap_stale,
}
use axmi_pusher.Store.Claims.{
  handed_out, HasUniqueIds, claim_query-CanClaim, pending_of, pending_row,
}
use axmi_pusher.Store.Capped.{
  IsCapped, none_above, same_handed, reap_row-IsCapped, claim_rows, pending_bounded,
}

-- A table from which the message of each key has been handed out `handed` of the key times.
pub record IsSound (max : ℕ) (handed : ℕ → ℕ) (s : Store) : Type 0 where
  pub unique : HasUniqueIds s.messages
  pub below : All (λ m. m.message_id < s.next_id) s.messages
  pub capped : All (λ m. IsCapped max (handed m.message_id) m) s.messages
  pub fresh : (i : ℕ) → s.next_id ≤ i → handed i ≡ 0
  pub bounded : (i : ℕ) → handed i ≤ max

-- What the program does with the table, with the messages that it hands out. A report may come
-- at any time and on any row; no caller of UpdateStatus writes PENDING.
pub data Step (max lease : ℕ) (s : Store) : List Message → Store → Type 0 where
  saves :
      (m : Message)
      → m.status ≡ msg_pending
      → m.retry_count ≡ 0
      → Step max lease s [] (save_message false m s).0
  claims :
      (limit now : ℕ)
      → Step max lease s (handed_out limit now s) (claim_pending false limit now s).0
  reports :
      (i : ℕ) (status : MsgStatus) (error : Text) (now : ℕ)
      → is_pending status ≡ false
      → Step max lease s [] (update_status false i status error now s)
  reaps : (now written : ℕ) → Step max lease s [] (reap_stale false lease max now written s).0

-- The tables that are reached, with how often the message of each key has been handed out.
pub data Reach (max lease : ℕ) (s : Store) : (ℕ → ℕ) → Store → Type 0 where
  here : Reach max lease s (λ i. 0) s
  next :
      {handed : ℕ → ℕ} {t u : Store} {out : List Message}
      → Reach max lease s handed t
      → Step max lease t out u
      → Reach max lease s (λ i. handed i + count (has_id i) out) u

below_suc :
    (n : ℕ) (rows : List Message)
    → All (λ m. m.message_id < n) rows
    → All (λ m. m.message_id < n + 1) rows
below_suc n [] h = tt
below_suc n (m ∷ rows) h = (omega arith, below_suc n rows h.1)

save-IsSound :
    (max : ℕ) (h : ℕ → ℕ) (m : Message) (s : Store)
    → 0 < max
    → m.retry_count ≡ 0
    → IsSound max h s
    → IsSound max h (save_message false m s).0
unfolding save_message
save-IsSound max h m s p z v = record {
  unique = λ i. ground (
    arith,
    count-append (has_id i) s.messages (new ∷ []),
    v.unique i,
    none_above s.next_id s.next_id s.messages v.below,
  );
  below =
      All-append _ s.messages (new ∷ []) (below_suc s.next_id s.messages v.below) (omega arith, tt);
  capped = All-append _ s.messages (new ∷ []) v.capped (starts, tt);
  fresh = λ i b. v.fresh i (omega arith);
  bounded = v.bounded;
}
  where
    new : Message
    new = record m { message_id = s.next_id }

    starts : IsCapped max (h s.next_id) new
    starts =
        let none_yet = v.fresh s.next_id (omega arith) in
        record { once = omega arith; left = λ _. (omega arith, omega arith) }

-- An update that keeps the keys keeps what the keys have.
module _ (max : ℕ) (s : Store) (q : Message → Bool) (f : Message → Message)
    (keeps : (m : Message) → (f m).message_id ≡ m.message_id) where
  update_unique : HasUniqueIds s.messages → HasUniqueIds (update q f s.messages)
  update_unique u i = rw (count-update_same (has_id i) q f s.messages (λ m. rw (keeps m))) (u i)

  update_below :
      All (λ m. m.message_id < s.next_id) s.messages
      → All (λ m. m.message_id < s.next_id) (update q f s.messages)
  update_below h = All-update _ q f s.messages h (λ m _ b. rw (keeps m) b)

reap-IsSound :
    (max lease now written : ℕ) (h : ℕ → ℕ) (s : Store)
    → IsSound max h s
    → IsSound max h (reap_stale false lease max now written s).0
unfolding reap_stale
reap-IsSound max lease now written h s v = record {
  unique = update_unique max s (is_stale lease now) (reap_row max written) same v.unique;
  below = update_below max s (is_stale lease now) (reap_row max written) same v.below;
  capped =
      All-update _ (is_stale lease now) (reap_row max written) s.messages v.capped (λ m stale c.
        subst (λ i. IsCapped max (h i) (reap_row max written m)) (sym (same m))
          (reap_row-IsCapped lease max now written (h m.message_id) m stale c));
  fresh = v.fresh;
  bounded = v.bounded;
}
  where
    same : (m : Message) → (reap_row max written m).message_id ≡ m.message_id
    same m = unfold reap_row in refl

report-IsSound :
    (max i : ℕ) (status : MsgStatus) (error : Text) (now : ℕ) (h : ℕ → ℕ) (s : Store)
    → is_pending status ≡ false
    → IsSound max h s
    → IsSound max h (update_status false i status error now s)
unfolding update_status
report-IsSound max i status error now h s other v = record {
  unique = update_unique max s (has_id i) change (λ m. refl) v.unique;
  below = update_below max s (has_id i) change (λ m. refl) v.below;
  capped =
      All-update _ (has_id i) change s.messages v.capped
        (λ m hit c. record { once = c.once; left = λ waits. absurd (ground arith) });
  fresh = v.fresh;
  bounded = v.bounded;
}
  where
    change : Message → Message
    change = λ m. record m { status = status; error = error; updated_at = now }

claim-IsSound :
    (max limit now : ℕ) (h : ℕ → ℕ) (s : Store)
    → IsSound max h s
    → IsSound max
        (λ i. h i + count (has_id i) (handed_out limit now s))
        (claim_pending false limit now s).0
unfolding claim_pending
claim-IsSound max limit now h s v =
    let can = claim_query-CanClaim limit s.messages v.unique in
    let (u, b, k) =
      claim_rows max now s.next_id h (claim_query limit s.messages) s.messages can v.unique v.below
        v.capped in
    record {
      unique = u;
      below = b;
      capped = k;
      fresh = λ i far. omega (
        arith,
        v.fresh i far,
        can.each i,
        count-and-le (has_id i) pending_row s.messages,
        none_above i s.next_id s.messages v.below far,
      );
      bounded = λ i. elim (Bool-cases (leb 1 (pending_of i s.messages))) [
        | inl waits ↦ omega (
          arith,
          pending_bounded max i h s.messages v.capped (leb→le _ _ waits),
          can.each i,
          can.once i,
        )
        | inr none_waits ↦
            let no_row : pending_of i s.messages ≡ 0 = ground arith in
            omega (arith, v.bounded i, can.each i)
      ];
    }

as_before : (max : ℕ) (h : ℕ → ℕ) (s : Store) → IsSound max h s → IsSound max (λ i. h i + 0) s
as_before max h s v = record {
  unique = v.unique;
  below = v.below;
  capped = same_handed max h (λ i. h i + 0) s.messages (λ i. omega arith) v.capped;
  fresh = λ i far. omega (arith, v.fresh i far);
  bounded = λ i. omega (arith, v.bounded i);
}

Step-IsSound :
    (max lease : ℕ) (h : ℕ → ℕ) {s t : Store} {out : List Message}
    → 0 < max
    → IsSound max h s
    → Step max lease s out t
    → IsSound max (λ i. h i + count (has_id i) out) t
Step-IsSound max lease h {s} p v (saves m w z) = as_before max h _ (save-IsSound max h m s p z v)
Step-IsSound max lease h {s} p v (claims limit now) = claim-IsSound max limit now h s v
Step-IsSound max lease h {s} p v (reports i status error now f) =
    as_before max h _ (report-IsSound max i status error now h s f v)
Step-IsSound max lease h {s} p v (reaps now written) =
    as_before max h _ (reap-IsSound max lease now written h s v)

-- From a sound table, in particular the empty one, whatever the sequence of saves, claims, reports
-- of any status but PENDING on any row at any time, and recoveries of leases: the claims have handed
-- out no message more often than the limit, keys are unique and below the next one, and a row that
-- is pending has been recovered less often than the limit.
pub Reach-IsSound :
    (max lease : ℕ) {s t : Store} {handed : ℕ → ℕ}
    → 0 < max
    → IsSound max (λ i. 0) s
    → Reach max lease s handed t
    → IsSound max handed t
Reach-IsSound max lease p v here = v
Reach-IsSound max lease p v (next r st) =
    Step-IsSound max lease _ p (Reach-IsSound max lease p v r) st
