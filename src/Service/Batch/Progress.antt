-- ===== src/Service/Batch/Progress.antt =====
-- How a batch task ends that is not cancelled.
use mathlib.Core.Path.{subst}
use axmi_pusher.Base.{
  ap, ◌∙◌, ◌⊎◌, inl, inr, string_eq, none, true, suc, some, refl, nat_eq, [], ◌==◌, ◌&&◌, ◌∷◌, ltb,
  length, false, arith, List, if◌then◌else◌, Option, ◌≡◌, ◌+◌, Bool, ℕ,
}
use axmi_pusher.Service.Messages.{SendEnv, EnqueueError, Recipient, Backend, Services}
use axmi_pusher.Service.Messages.Send.{enqueue_one, content_for}
use axmi_pusher.Models.{Template}
use axmi_pusher.Service.Batch.{
  Codec, process, work_off, batch_pending, Bool, ℕ, BatchTask, BatchEnv, BatchTaskConfig,
  batch_running, batch_done, batch_failed, process_each, write_end, write_progress, was_lost,
}

-- A run without Cancel and without refusals of the statements on the task.
unfoldable pub IsQuiet : BatchEnv → Type 0
IsQuiet env =
    ((i : ℕ) → (env.early i ≡ false) × ((env.late i ≡ false) × (env.read_refused i ≡ false)))
    × (env.end_refused ≡ false)

-- A task that is done: of its n recipients s are counted as a success and the others as a failure,
-- and it has failed only if there was a failure and no success.
unfoldable pub IsDone : ℕ → ℕ → BatchTask → Type 0
IsDone s n t =
    (t.success ≡ s)
    × (t.success + t.failed ≡ n)
    × (t.status ≡ (if ltb 0 t.failed && t.success == 0 then batch_failed else batch_done))

pub one_more :
    (lost : Bool) (n s f : ℕ)
    → n + ((if lost then s else s + 1) + (if lost then f + 1 else f)) ≡ suc n + (s + f)
one_more true n s f = omega arith
one_more false n s f = omega arith

-- How many messages EnqueueOne takes without an error when a tenant sends to one recipient after the
-- other, from the i-th on.
unfoldable pub taken :
    {Q L : Type 0}
    → Services Q L
    → SendEnv
    → ℕ
    → BatchTaskConfig
    → Option Template
    → ℕ
    → List Recipient
    → Backend Q L
    → ℕ
taken services env tenant cfg template i [] b = 0
taken services env tenant cfg template i (r ∷ rs) b =
    let (b', e) =
      enqueue_one services env i tenant cfg.channel cfg.title
        (content_for services env template cfg.content r) r.target "" cfg.priority b in
    let rest = taken services env tenant cfg template (i + 1) rs b' in
    elim e [ inl refused ↦ rest | inr mid ↦ 1 + rest ]

pub counts_taken :
    (e : EnqueueError ⊎ ℕ) (s k : ℕ)
    → (if was_lost e then s else s + 1) + k ≡ s + elim e [ inl refused ↦ k | inr mid ↦ 1 + k ]
counts_taken (inl refused) s k = refl
counts_taken (inr mid) s k = omega arith

pub write_progress-tenant_id :
    (refused : Bool) (success failed : ℕ) (t : BatchTask)
    → (write_progress refused success failed t).tenant_id ≡ t.tenant_id
unfolding write_progress
write_progress-tenant_id refused success failed t = ground arith

module _ {Q L : Type 0} (services : Services Q L) (env : BatchEnv) (quiet : IsQuiet env) where
  write_progress-running :
      (refused : Bool) (success failed : ℕ) (t : BatchTask)
      → t.status ≡ batch_running
      → (write_progress refused success failed t).status ≡ batch_running
  unfolding write_progress
  write_progress-running refused success failed t h = ground arith

  process_each-IsDone :
      (i : ℕ) (cfg : BatchTaskConfig) (template : Option Template) (rs : List Recipient)
      (success failed : ℕ) (t : BatchTask) (b : Backend Q L)
      → t.status ≡ batch_running
      → IsDone
          (success + taken services env.sending t.tenant_id cfg template i rs b)
          (length rs + (success + failed))
          (process_each services env i cfg template rs success failed t b).0
  unfolding process_each IsQuiet IsDone write_end taken
  process_each-IsDone i cfg template [] success failed t b h =
      rw (quiet.1) (omega arith, omega arith, refl)
  process_each-IsDone i cfg template (r ∷ rs) success failed t b h =
      rw ((quiet.0 i).0, (quiet.0 i).1.0, (quiet.0 i).1.1, h)
        (let (b', e) =
            enqueue_one services env.sending i t.tenant_id cfg.channel cfg.title
              (content_for services env.sending template cfg.content r) r.target "" cfg.priority
              b in
          let s' = if was_lost e then success else success + 1 in
          let f' = if was_lost e then failed + 1 else failed in
          let next =
            write_progress (env.write_refused i) s' f' (record t { status = batch_running }) in
          let after = (process_each services env (i + 1) cfg template rs s' f' next b').0 in
          let same : next.tenant_id ≡ t.tenant_id =
            write_progress-tenant_id (env.write_refused i) s' f'
              (record t { status = batch_running }) in
          subst (λ s. IsDone s (length (r ∷ rs) + (success + failed)) after)
            (ap (λ k. s' + taken services env.sending k cfg template (i + 1) rs b') same
              ∙ counts_taken e success
                  (taken services env.sending t.tenant_id cfg template (i + 1) rs b'))
            (subst
              (λ n.
                IsDone (s' + taken services env.sending next.tenant_id cfg template (i + 1) rs b') n
                  after)
              (one_more (was_lost e) (length rs) success failed)
              (process_each-IsDone (i + 1) cfg template rs s' f' next b' (
                write_progress-running (env.write_refused i) s' f'
                  (record t { status = batch_running }) refl))))

  -- A pending task that nobody cancels, and whose rows the database serves, is worked off: it counts
  -- as successes the recipients whose message EnqueueOne takes without an error, one after the other,
  -- and as failures the others, whatever becomes of the writes in between, and it ends as failed
  -- exactly if there are failures only. Its configuration can be read, and names no template.
  pub process-IsDone :
      (codec : Codec) (cfg : BatchTaskConfig) (t : BatchTask) (b : Backend Q L)
      → t.status ≡ batch_pending
      → codec.decode t.config ≡ some cfg
      → (cfg.template_code == "") ≡ true
      → env.busy ≡ false
      → env.start_refused ≡ false
      → env.load_refused ≡ false
      → IsDone
          (taken services env.sending t.tenant_id cfg none 0 cfg.recipients b)
          (length cfg.recipients)
          (process services env codec t b).0
  unfolding process work_off process_each
  process-IsDone codec cfg t b waiting readable plain idle starts loads =
      rw (waiting, idle, starts, loads, readable, plain)
        (subst
          (λ n.
            IsDone (taken services env.sending t.tenant_id cfg none 0 cfg.recipients b) n
              (process_each services env 0 cfg none cfg.recipients 0 0
                (record t { status = batch_running }) b).0)
          (omega arith)
          (subst
            (λ s.
              IsDone s (length cfg.recipients + (0 + 0))
                (process_each services env 0 cfg none cfg.recipients 0 0
                  (record t { status = batch_running }) b).0)
            (omega arith)
            (process_each-IsDone 0 cfg none cfg.recipients 0 0 (record t { status = batch_running })
              b refl)))
