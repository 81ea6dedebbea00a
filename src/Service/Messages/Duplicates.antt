-- ===== src/Service/Messages/Duplicates.antt =====
-- A request that was accepted once is a duplicate from then on.
use mathlib.Core.Path.{subst}
use axmi_pusher.Base.Assoc.{insert, lookup, Assoc}
use axmi_pusher.Base.{
  nat_eq, false, ◌∙◌, sym, ◌+◌, ◌==◌, drop, ap, string_eq, refl, nat_beq_iff, text_eq, arith,
  if◌then◌else◌, [], ◌∷◌, Text, first, ◌++◌, Option, some, none, Bool, ◌≡◌, List, ℕ, String,
  Bool-cases, Option-cases, inl, inr, ◌⊎◌,
}
use axmi_pusher.Base.Keys.{tenant_key_inj}
use axmi_pusher.Service.RateLimit.{Reply, lost_before}
use axmi_pusher.Base.Assoc.{lookup-insert_ne, lookup-insert}
use axmi_pusher.Store.{save_message}
use axmi_pusher.Service.Messages.{
  Template, save_message, TaskMessage, Assoc, IdempotencyRecord, Services, Backend, SendEnv,
  SendRequest, SendResult, SendError, Recipient, written, recorded, is_record, duplicate_of,
  cache_key, redis_set_script,
}
use axmi_pusher.Service.Messages.Send.{
  tally, enqueue_one, hand_over, enqueue_all, is_skipped, content_for, conclude,
}

-- What the table of records answers for a request.
unfoldable pub known : ℕ → String → List IdempotencyRecord → Option (SendError ⊎ SendResult)
known tenant request records = recorded (first (is_record tenant request) records)

-- Each message that the cache holds for a request is the one recorded for it.
unfoldable pub CacheAgrees : List IdempotencyRecord → Option (Assoc Text (ℕ × ℕ)) → Type 0
unfolding known
CacheAgrees records none = Unit
CacheAgrees records (some c) =
    (tenant : ℕ) (request : String) (mid ends : ℕ)
    → lookup (cache_key tenant request) c ≡ some (mid, ends)
    → known tenant request records ≡ some (inr (duplicate_of mid))

first-append :
    (p : IdempotencyRecord → Bool) (r : IdempotencyRecord) (rs : List IdempotencyRecord)
    → first p (rs ++ (r ∷ []))
      ≡ (elim (first p rs) [ none ↦ if p r then some r else none | some x ↦ some x ])
first-append p r [] = refl
first-append p r (x ∷ rs) = ground (arith, first-append p r rs)

-- A record that is added keeps what was known.
known-append :
    (tenant : ℕ) (request : String) (r : IdempotencyRecord) (rs : List IdempotencyRecord)
    (answer : SendError ⊎ SendResult)
    → known tenant request rs ≡ some answer
    → known tenant request (rs ++ (r ∷ [])) ≡ some answer
unfolding known
known-append tenant request r rs answer h =
    ground (arith, first-append (is_record tenant request) r rs)

known-new :
    (tenant : ℕ) (request : String) (mid : ℕ) (rs : List IdempotencyRecord)
    → known tenant request rs ≡ none
    → known tenant request
        (rs ++ (record { tenant_id = tenant; request_id = request; message_id = mid } ∷ []))
      ≡ some (inr (duplicate_of mid))
unfolding known
known-new tenant request mid rs h = ground (
  arith,
  first-append (is_record tenant request)
      (record { tenant_id = tenant; request_id = request; message_id = mid }) rs,
  nat_beq_iff tenant tenant,
  string_eq.beq_iff request request,
)

cache_key_inj : (t u : ℕ) (a b : String) → cache_key t a ≡ cache_key u b → (t ≡ u) × (a ≡ b)
cache_key_inj t u a b h = tenant_key_inj t u a b (ap (drop 5) h)

record_of : ℕ → String → ℕ → IdempotencyRecord
record_of tenant request mid = record { tenant_id = tenant; request_id = request; message_id = mid }

some_pair : {a b c d : ℕ} → ◌≡◌ {A = Option (ℕ × ℕ)} (some (a, b)) (some (c, d)) → a ≡ c
some_pair e = ap (λ o. elim o [ none ↦ 0 | some p ↦ p.0 ]) e

CacheAgrees-insert :
    (tenant : ℕ) (request : String) (mid ends : ℕ) (rs : List IdempotencyRecord)
    (c : Assoc Text (ℕ × ℕ))
    → known tenant request rs ≡ none
    → CacheAgrees rs (some c)
    → CacheAgrees
        (rs ++ (record_of tenant request mid ∷ []))
        (some (insert (cache_key tenant request) (mid, ends) c))
unfolding CacheAgrees record_of
CacheAgrees-insert tenant request mid ends rs c new agrees t q m e h =
    elim (Bool-cases (cache_key tenant request == cache_key t q)) [
      | inl same ↦
          let (p, r) =
            cache_key_inj tenant t request q
              ((text_eq.beq_iff (cache_key tenant request) (cache_key t q)).0 same) in
          let found : ◌≡◌ {A = Option (ℕ × ℕ)} (some (mid, ends)) (some (m, e)) =
            sym (
              lookup-insert (cache_key tenant request) (cache_key t q) (mid, ends) c
              ∙ ap (λ (b : Bool). if b then some (mid, ends) else lookup (cache_key t q) c) same)
            ∙ h in
          subst
            (λ k.
              known t q (rs ++ (record_of tenant request mid ∷ [])) ≡ some (inr (duplicate_of k)))
            (some_pair found)
            (subst
              (λ (z : ℕ × String).
                known z.0 z.1 (rs ++ (record_of tenant request mid ∷ []))
                ≡ some (inr (duplicate_of mid)))
              (λ i. (p i, r i)) (known-new tenant request mid rs new))
      | inr other ↦ known-append t q (record_of tenant request mid) rs (inr (duplicate_of m)) (
          agrees t q m e (
            sym (lookup-insert_ne (cache_key tenant request) (cache_key t q) (mid, ends) c other)
            ∙ h))
    ]

CacheAgrees-grows :
    (r : IdempotencyRecord) (rs : List IdempotencyRecord) (cache : Option (Assoc Text (ℕ × ℕ)))
    → CacheAgrees rs cache
    → CacheAgrees (rs ++ (r ∷ [])) cache
unfolding CacheAgrees
CacheAgrees-grows r rs none h = tt
CacheAgrees-grows r rs (some c) h =
    λ t q m e k. known-append t q r rs (inr (duplicate_of m)) (h t q m e k)

written-agrees :
    (env : SendEnv) (tenant : ℕ) (request : String) (mid : ℕ) (rs : List IdempotencyRecord)
    (cache : Option (Assoc Text (ℕ × ℕ)))
    → known tenant request rs ≡ none
    → CacheAgrees rs cache
    → CacheAgrees (rs ++ (record_of tenant request mid ∷ [])) (written env tenant request mid cache)
unfolding written redis_set_script
written-agrees env tenant request mid rs none new h =
    CacheAgrees-grows (record_of tenant request mid) rs none h
written-agrees env tenant request mid rs (some c) new h =
    elim env.cache_write
      as (λ (w : Reply). CacheAgrees (rs ++ (record_of tenant request mid ∷ [])) (elim w [
        | lost_before ↦ some c
        | _ ↦ some (insert (cache_key tenant request) (mid, env.clock + 86400) c)
      ])) [
        | lost_before ↦ CacheAgrees-grows (record_of tenant request mid) rs (some c) h
        | _ ↦ CacheAgrees-insert tenant request mid (env.clock + 86400) rs c new h
      ]

-- After an answer of success, the request is known, with the message of the answer.
unfoldable pub Settled : ℕ → String → List IdempotencyRecord → SendError ⊎ SendResult → Type 0
Settled tenant request records (inl e) = Unit
Settled tenant request records (inr r) =
    known tenant request records ≡ some (inr (duplicate_of r.message_id))

module _ {Q L : Type 0} (services : Services Q L) (env : SendEnv) where
  -- The records and the cache of a backend are sound for a request's answer.
  unfoldable pub IsSettled : ℕ → String → Backend Q L → SendError ⊎ SendResult → Type 0
  IsSettled tenant request b answer =
      CacheAgrees b.records b.cache × Settled tenant request b.records answer

  pub conclude-settles :
      (tenant : ℕ) (request : String) (head n : ℕ) (b : Backend Q L)
      → (request == "") ≡ false
      → known tenant request b.records ≡ none
      → CacheAgrees b.records b.cache
      → IsSettled tenant request
          (conclude services env tenant request head n b).0
          (conclude services env tenant request head n b).1
  unfolding conclude IsSettled Settled record_of written
  conclude-settles tenant request head n b named new h = elim (Bool-cases (n == 0)) [
    | inl zero_rows ↦ rw zero_rows (h, tt)
    | inr some_row ↦
        rw (some_row, named)
          (elim (Bool-cases env.create_refused) [
            | inl refused ↦ rw refused (h, tt)
            | inr created ↦ rw created (
              written-agrees env tenant request head b.records b.cache new h,
              known-new tenant request head b.records new,
            )
          ])
  ]

  -- The message table, the queue and the limiter may change, the records and the cache not.
  unfoldable pub Keeps : Backend Q L → Backend Q L → Type 0
  Keeps b b' = (b'.records ≡ b.records) × (b'.cache ≡ b.cache)

  hand_over-Keeps :
      (i : ℕ) (task : TaskMessage) (b : Backend Q L) → Keeps b (hand_over services env i task b).0
  unfolding hand_over Keeps
  hand_over-Keeps i task b = elim (Option-cases (services.publish b.queue task).1) [
    | inl e ↦ rw (e, hand_over) (refl, refl)
    | inr (text, e) ↦ rw (e, hand_over) (refl, refl)
  ]

  enqueue_one-Keeps :
      (i tenant : ℕ) (channel : String) (title content : Text) (recipient request priority : String)
      (b : Backend Q L)
      → Keeps b
          (enqueue_one services env i tenant channel title content recipient request priority b).0
  unfolding enqueue_one save_message Keeps
  enqueue_one-Keeps i tenant channel title content recipient request priority b =
      elim (Bool-cases (env.save_refused i)) [
        | inl refused ↦ rw (refused, enqueue_one, save_message) (refl, refl)
        | inr kept ↦
            rw (kept, enqueue_one, save_message)
              (elim (Bool-cases (env.event_refused i)) [
                | inl refused ↦ rw refused (refl, refl)
                | inr noted ↦ rw noted (hand_over-Keeps i _ _)
              ])
      ]

  pub enqueue_all-Keeps :
      (i tenant : ℕ) (channel : String) (t : Option Template) (title : Text) (req : SendRequest)
      (rs : List Recipient) (head n : ℕ) (b : Backend Q L)
      → Keeps b (enqueue_all services env i tenant channel t title req rs head n b).0
  unfolding enqueue_all Keeps
  enqueue_all-Keeps i tenant channel t title req [] head n b = (refl, refl)
  enqueue_all-Keeps i tenant channel t title req (r ∷ rs) head n b =
      elim (Bool-cases (is_skipped services env channel r)) [
        | inl skip ↦
            rw (skip, enqueue_all)
              (enqueue_all-Keeps (i + 1) tenant channel t title req rs head n b)
        | inr go ↦
            rw (go, enqueue_all)
              (let (b', e) =
                  enqueue_one services env i tenant channel title
                    (content_for services env t req.content r) r.target req.request_id req.priority
                    b in
                let (p, q) =
                  enqueue_all-Keeps (i + 1) tenant channel t title req rs (tally e head n).0
                    (tally e head n).1 b' in
                let (p', q') =
                  enqueue_one-Keeps i tenant channel title
                    (content_for services env t req.content r) r.target req.request_id req.priority
                    b in
                (p ∙ p', q ∙ q'))
      ]
