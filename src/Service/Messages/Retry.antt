-- ===== src/Service/Messages/Retry.antt =====
-- The retry of a request that has succeeded.
use axmi_pusher.Service.Messages.Duplicates.{
  known, CacheAgrees, Settled, IsSettled, Keeps, conclude-settles, enqueue_all-Keeps,
}
use axmi_pusher.Service.Messages.{channel_invalid, template_missing, rate_limited, is_template}
use mathlib.Core.Path.{subst}
use axmi_pusher.Base.Assoc.{lookup, Assoc}
use axmi_pusher.Base.{
  length, leb, true, nat_eq, false, ◌∙◌, sym, ◌==◌, ap, string_eq, refl, text_eq, arith,
  if◌then◌else◌, [], Text, first, Option, some, none, ◌≡◌, List, ℕ, String, Bool-cases,
  Option-cases, inl, inr, ◌⊎◌,
}
use axmi_pusher.Service.RateLimit.{replied, lost_after, Reply, lost_before}
use axmi_pusher.Service.Messages.{
  Template, Assoc, IdempotencyRecord, Services, Backend, SendEnv, SendRequest, SendResult,
  SendError, resolve_channel, cached, recorded, is_record, duplicate_of, cache_key, is_registered,
  redis_get_script,
}
use axmi_pusher.Service.Messages.Send.{
  enqueue_all, send, deliver, with_template, accept, find_duplicate,
}

Settles : ℕ → String → List IdempotencyRecord → Option (SendError ⊎ SendResult) → Type 0
Settles tenant request records none = Unit
Settles tenant request records (some answer) = Settled tenant request records answer

module _ {Q L : Type 0} (services : Services Q L) (env : SendEnv) where
  unaccepted :
      (tenant : ℕ) (request : String) (b : Backend Q L) (e : SendError)
      → CacheAgrees b.records b.cache
      → IsSettled services env tenant request b (inl e)
  unfolding IsSettled Settled
  unaccepted tenant request b e h = (h, tt)

  deliver-settles :
      (tenant : ℕ) (req : SendRequest) (t : Option Template) (title : Text) (b : Backend Q L)
      → (req.request_id == "") ≡ false
      → known tenant req.request_id b.records ≡ none
      → CacheAgrees b.records b.cache
      → IsSettled services env tenant req.request_id
          (deliver services env tenant req t title b).0
          (deliver services env tenant req t title b).1
  unfolding deliver Keeps
  deliver-settles tenant req t title b named new h =
      let channel =
        resolve_channel services.has_channel services.is_available tenant req.channel t in
      elim (Bool-cases (is_registered services.has_channel channel)) [
        | inr unregistered ↦
            rw unregistered (unaccepted tenant req.request_id b (channel_invalid channel) h)
        | inl registered ↦ rw registered (
            let all = enqueue_all services env 0 tenant channel t title req req.recipients 0 0 b in
            let (p, q) =
              enqueue_all-Keeps services env 0 tenant channel t title req req.recipients 0 0 b in
            conclude-settles services env tenant req.request_id all.1.0 all.1.1 all.0 named
              (ap (known tenant req.request_id) p ∙ new)
              (subst
                (λ (z : List IdempotencyRecord × Option (Assoc Text (ℕ × ℕ))). CacheAgrees z.0 z.1)
                (λ i. (sym p i, sym q i)) h))
      ]

  accept-settles :
      (tenant : ℕ) (req : SendRequest) (b : Backend Q L)
      → (req.request_id == "") ≡ false
      → known tenant req.request_id b.records ≡ none
      → CacheAgrees b.records b.cache
      → IsSettled services env tenant req.request_id
          (accept services env tenant req b).0
          (accept services env tenant req b).1
  unfolding accept with_template
  accept-settles tenant req b named new h =
      let limited =
        if services.rate_enabled
        then services.allow b.limiter tenant env.clock
        else (b.limiter, true) in
      let b' : Backend Q L = record b { limiter = limited.0 } in
      let t =
        if env.template_refused
        then none
        else first (is_template tenant req.template_code) b.templates in
      elim (Bool-cases limited.1) [
        | inr refused ↦ rw refused (unaccepted tenant req.request_id b' rate_limited h)
        | inl allowed ↦ rw allowed (elim (Bool-cases (req.template_code == "")) [
          | inl plain ↦ rw plain (deliver-settles tenant req none req.title b' named new h)
          | inr coded ↦ rw coded (elim (Option-cases t) [
            | inl missing ↦ rw missing (unaccepted tenant req.request_id b' template_missing h)
            | inr (found, e) ↦ rw e (
                deliver-settles tenant req (some found)
                  (if req.title == [] then found.name else req.title) b' named new h)
          ])
        ])
      ]

  redis_get-known :
      (tenant : ℕ) (request : String) (rs : List IdempotencyRecord) (c : Assoc Text (ℕ × ℕ))
      → CacheAgrees rs (some c)
      → (redis_get_script env.clock (cache_key tenant request) c == 0) ≡ false
      → known tenant request rs
        ≡ some (inr (duplicate_of (redis_get_script env.clock (cache_key tenant request) c)))
  unfolding redis_get_script CacheAgrees
  redis_get-known tenant request rs c h hit =
      elim (Option-cases (lookup (cache_key tenant request) c)) [
        | inl missing ↦ absurd (ground (arith, missing, hit))
        | inr ((v, ends), found) ↦ elim (Bool-cases (leb ends env.clock)) [
          | inl over ↦ absurd (ground (arith, found, over, hit))
          | inr live ↦ rw (found, live, redis_get_script) (h tenant request v ends found)
        ]
      ]

  cached-known :
      (tenant : ℕ) (request : String) (rs : List IdempotencyRecord)
      (cache : Option (Assoc Text (ℕ × ℕ)))
      → CacheAgrees rs cache
      → (cached env tenant request cache == 0) ≡ false
      → known tenant request rs ≡ some (inr (duplicate_of (cached env tenant request cache)))
  unfolding cached
  cached-known tenant request rs none h hit = absurd (ground arith)
  cached-known tenant request rs (some c) h hit = by_reply env.cache_read hit
    where
      answer : Reply → ℕ
      answer w = elim w [
        | replied ↦ redis_get_script env.clock (cache_key tenant request) c
        | _ ↦ 0
      ]

      by_reply :
          (w : Reply)
          → (answer w == 0) ≡ false
          → known tenant request rs ≡ some (inr (duplicate_of (answer w)))
      by_reply replied e = redis_get-known tenant request rs c h e
      by_reply lost_before e = absurd (ground arith)
      by_reply lost_after e = absurd (ground arith)

  find_duplicate-known :
      (tenant : ℕ) (request : String) (b : Backend Q L)
      → CacheAgrees b.records b.cache
      → env.find_refused ≡ false
      → find_duplicate services env tenant request b ≡ known tenant request b.records
  unfolding find_duplicate known
  find_duplicate-known tenant request b h read =
      elim (Bool-cases (cached env tenant request b.cache == 0)) [
        | inr hit ↦ rw hit (sym (cached-known tenant request b.records b.cache h hit))
        | inl miss ↦ rw (miss, read) refl
      ]

  fresh_unknown :
      (tenant : ℕ) (request : String) (b : Backend Q L)
      → find_duplicate services env tenant request b ≡ none
      → known tenant request b.records ≡ none
  unfolding find_duplicate known
  fresh_unknown tenant request b h = ground arith

  find_duplicate-Settles :
      (tenant : ℕ) (request : String) (b : Backend Q L)
      → CacheAgrees b.records b.cache
      → Settles tenant request b.records (find_duplicate services env tenant request b)
  unfolding find_duplicate Settles Settled known
  find_duplicate-Settles tenant request b h =
      elim (Bool-cases (cached env tenant request b.cache == 0)) [
        | inr hit ↦ rw hit (cached-known tenant request b.records b.cache h hit)
        | inl miss ↦ rw miss (elim (Bool-cases env.find_refused) [
          | inl refused ↦ rw refused tt
          | inr read ↦ rw read (elim (Option-cases (first (is_record tenant request) b.records)) [
            | inl missing ↦ rw missing tt
            | inr (r, found) ↦ rw found (ap recorded found)
          ])
        ])
      ]

  send-settles :
      (tenant : ℕ) (req : SendRequest) (b : Backend Q L)
      → (req.request_id == "") ≡ false
      → CacheAgrees b.records b.cache
      → IsSettled services env tenant req.request_id
          (send services env tenant req b).0
          (send services env tenant req b).1
  unfolding send IsSettled Settles Settled
  send-settles tenant req b named h = elim (Bool-cases (length req.recipients == 0)) [
    | inl nobody ↦ rw nobody (h, tt)
    | inr somebody ↦
        rw (somebody, named)
          (elim (Option-cases (find_duplicate services env tenant req.request_id b)) [
            | inl fresh ↦
                rw fresh (
                  accept-settles tenant req b named (fresh_unknown tenant req.request_id b fresh) h)
            | inr (answer, again) ↦ rw again (
              h,
              subst (Settles tenant req.request_id b.records) again
                  (find_duplicate-Settles tenant req.request_id b h),
            )
          ])
  ]

  send-known :
      (tenant : ℕ) (req : SendRequest) (b : Backend Q L) (answer : SendError ⊎ SendResult)
      → (length req.recipients == 0) ≡ false
      → (req.request_id == "") ≡ false
      → CacheAgrees b.records b.cache
      → env.find_refused ≡ false
      → known tenant req.request_id b.records ≡ some answer
      → send services env tenant req b ≡ (b, answer)
  unfolding send
  send-known tenant req b answer somebody named h read found =
      rw (somebody, named, find_duplicate-known tenant req.request_id b h read, found, send) refl

module _ {Q L : Type 0} where
  -- A request with an id that was answered with success is a duplicate from then on: whatever it asks
  -- for, and whatever its second environment is, as long as the database can be read, it is answered
  -- with the same message and changes nothing. The cache, which must agree with the records before,
  -- agrees with them after the first request too, which may have been a duplicate itself.
  pub retry_is_duplicate :
      (services services' : Services Q L) (env env' : SendEnv) (tenant : ℕ) (req req' : SendRequest)
      (b b' : Backend Q L) (r : SendResult)
      → (req.request_id == "") ≡ false
      → CacheAgrees b.records b.cache
      → send services env tenant req b ≡ (b', inr r)
      → (length req'.recipients == 0) ≡ false
      → req'.request_id ≡ req.request_id
      → env'.find_refused ≡ false
      → CacheAgrees b'.records b'.cache
        × (send services' env' tenant req' b' ≡ (b', inr (duplicate_of r.message_id)))
  unfolding IsSettled Settled
  retry_is_duplicate services services' env env' tenant req req' b b' r named h sent somebody same
        read =
      let (agrees, found) = settled in
      (
        agrees,
        send-known services' env' tenant req' b' (inr (duplicate_of r.message_id)) somebody
            (ap (λ q. q == "") same ∙ named) agrees read
            (ap (λ q. known tenant q b'.records) same ∙ found),
      )
    where
      settled : IsSettled services env tenant req.request_id b' (inr r)
      settled =
          subst
            (λ (z : Backend Q L × (SendError ⊎ SendResult)).
              IsSettled services env tenant req.request_id z.0 z.1)
            sent (send-settles services env tenant req b named h)
