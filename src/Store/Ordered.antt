-- ===== src/Store/Ordered.antt =====
-- The rows that a claim takes from those in the order of their keys.
use axmi_pusher.Base.{
  refl, zero, suc, count-take-drop, drop, take, inr, inl, true, Bool-cases, All, nat_eq, [], arith,
  ◌≤◌, ◌≡◌, count, ◌∷◌, List, ℕ,
}
use axmi_pusher.Base.Sort.{IsSorted}
use Prim.Native.Nat.{suc}
use axmi_pusher.Models.{
  MsgStatus, msg_pending, msg_sending, msg_success, msg_failed, msg_retrying, msg_dead,
  msg_cancelled,
}
use axmi_pusher.Store.{Message, has_id, is_pending}

at_least :
    (k j : ℕ) (ms : List Message) → All (λ m. k ≤ m.message_id) ms → 1 ≤ count (has_id j) ms → k ≤ j
at_least k j [] h there = absurd (omega arith)
at_least k j (m ∷ ms) h there = elim (Bool-cases (has_id j m)) [
  | inl same ↦ ground (arith, h.0)
  | inr other ↦ at_least k j ms h.1 (ground arith)
]

pub least_taken :
    (i j n : ℕ) (ms : List Message)
    → IsSorted (λ m. m.message_id) ms
    → 1 ≤ count (has_id i) (take n ms)
    → 1 ≤ count (has_id j) (drop n ms)
    → i ≤ j
least_taken i j zero ms h taken left = absurd (omega arith)
least_taken i j (suc n) [] h taken left = absurd (omega arith)
least_taken i j (suc n) (m ∷ ms) h taken left = elim (Bool-cases (has_id i m)) [
  | inl same ↦
      let above : m.message_id ≤ j =
        at_least m.message_id j ms h.0 (omega (arith, count-take-drop (has_id j) n ms)) in
      ground (arith, above)
  | inr other ↦ least_taken i j n ms h.1 (ground arith) left
]

is_pending_lem : (s : MsgStatus) → is_pending s ≡ true → s ≡ msg_pending
is_pending_lem msg_pending h = refl
is_pending_lem msg_sending h = cc
is_pending_lem msg_success h = cc
is_pending_lem msg_failed h = cc
is_pending_lem msg_retrying h = cc
is_pending_lem msg_dead h = cc
is_pending_lem msg_cancelled h = cc

pub waiting :
    (ms : List Message)
    → All (λ m. is_pending m.status ≡ true) ms
    → All (λ m. m.status ≡ msg_pending) ms
waiting [] h = tt
waiting (m ∷ ms) h = (is_pending_lem m.status h.0, waiting ms h.1)
