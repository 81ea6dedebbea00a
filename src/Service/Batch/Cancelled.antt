-- ===== src/Service/Batch/Cancelled.antt =====
-- A Cancel that falls between the check of `process` and its next write of the status is overwritten.
use axmi_pusher.Service.Batch.Progress.{
  IsDone, one_more, taken, counts_taken, write_progress-tenant_id,
}
use mathlib.Core.Path.{subst}
use axmi_pusher.Base.{
  ◌∙◌, ap, ◌||◌, ◌%◌, string_eq, true, refl, nat_eq, [], ◌==◌, ◌∷◌, length, false, arith, List,
  if◌then◌else◌, Option, ◌≡◌, ◌+◌, Bool, ℕ,
}
use axmi_pusher.Service.Messages.{Recipient, Backend, Services}
use axmi_pusher.Service.Messages.Send.{enqueue_one, content_for}
use axmi_pusher.Models.{Template}
use axmi_pusher.Service.Batch.{
  cancel_row, batch_chunk_size, Bool, ℕ, BatchTask, BatchEnv, BatchTaskConfig, batch_running,
  process_each, write_end, write_progress, was_lost, cancelled_when, is_cancelled,
}

-- The statements on the task are served; a Cancel may come only after the check of a recipient, and
-- only where a write of the progress follows, or the one at the end of n recipients.
unfoldable pub IsLate : ℕ → BatchEnv → Type 0
IsLate n env =
    ((i : ℕ)
      → (env.early i ≡ false)
        × ((env.read_refused i ≡ false)
            × ((env.write_refused i ≡ false)
                × (env.late i ≡ true → ((i + 1) % batch_chunk_size == 0 || i + 1 == n) ≡ true))))
    × (env.end_refused ≡ false)

cancel_row-running :
    (late : Bool) (t : BatchTask) (k n : ℕ) (s f : ℕ)
    → t.status ≡ batch_running
    → (late ≡ true → (k % batch_chunk_size == 0 || k == n) ≡ true)
    → s + f ≡ k
    → (k == n) ≡ false
    → (write_progress false s f (cancelled_when late t)).status ≡ batch_running
unfolding write_progress
cancel_row-running true t k n s f h over sum more = rw sum (ground (arith, over))
cancel_row-running false t k n s f h over sum more = ground arith

cancelled_when-tenant_id :
    (late : Bool) (t : BatchTask) → (cancelled_when late t).tenant_id ≡ t.tenant_id
unfolding cancel_row
cancelled_when-tenant_id true t = ground arith
cancelled_when-tenant_id false t = refl

module _ {Q L : Type 0} (services : Services Q L) (env : BatchEnv) (n : ℕ)
    (late : IsLate n env) where
  cancelled-IsDone :
      (i : ℕ) (cfg : BatchTaskConfig) (template : Option Template) (rs : List Recipient)
      (success failed : ℕ) (t : BatchTask) (b : Backend Q L)
      → success + failed ≡ i
      → i + length rs ≡ n
      → ((i == n) ≡ false → t.status ≡ batch_running)
      → IsDone
          (success + taken services env.sending t.tenant_id cfg template i rs b)
          n
          (process_each services env i cfg template rs success failed t b).0
  unfolding process_each IsLate IsDone write_end taken
  cancelled-IsDone i cfg template [] success failed t b sum all h =
      rw (late.1) (omega arith, omega arith, refl)
  cancelled-IsDone i cfg template (r ∷ rs) success failed t b sum all h =
      let (b', e) =
        enqueue_one services env.sending i t.tenant_id cfg.channel cfg.title
          (content_for services env.sending template cfg.content r) r.target "" cfg.priority b in
      let s' = if was_lost e then success else success + 1 in
      let f' = if was_lost e then failed + 1 else failed in
      let next = write_progress (env.write_refused i) s' f' (cancelled_when (env.late i) t) in
      let running : t.status ≡ batch_running = h (ground arith) in
      let sum' : s' + f' ≡ i + 1 = omega (arith, one_more (was_lost e) 0 success failed) in
      let same : next.tenant_id ≡ t.tenant_id =
        write_progress-tenant_id (env.write_refused i) s' f' (cancelled_when (env.late i) t)
        ∙ cancelled_when-tenant_id (env.late i) t in
      rw ((late.0 i).0, (late.0 i).1.0, ap is_cancelled running)
        (subst (λ s. IsDone s n (process_each services env (i + 1) cfg template rs s' f' next b').0)
          (ap (λ k. s' + taken services env.sending k cfg template (i + 1) rs b') same
            ∙ counts_taken e success
                (taken services env.sending t.tenant_id cfg template (i + 1) rs b'))
          (cancelled-IsDone (i + 1) cfg template rs s' f' next b' sum' (omega arith) (λ more.
            rw ((late.0 i).1.1.0) (
              cancel_row-running (env.late i) t (i + 1) n s' f' running ((late.0 i).1.1.1) sum'
                more))))

-- A Cancel that finds the task running, and so reports success, may be lost: if one commits only
-- after the check of a recipient that a write of the status follows, every hundredth or the last,
-- and the statements on the task are served, the task is worked off to its end, its recipients all
-- counted, as successes those whose message EnqueueOne takes, and its status not cancelled.
pub late_cancel_lost :
    {Q L : Type 0} (services : Services Q L) (env : BatchEnv) (cfg : BatchTaskConfig)
    (template : Option Template) (t : BatchTask) (b : Backend Q L)
    → t.status ≡ batch_running
    → IsLate (length cfg.recipients) env
    → IsDone
        (taken services env.sending t.tenant_id cfg template 0 cfg.recipients b)
        (length cfg.recipients)
        (process_each services env 0 cfg template cfg.recipients 0 0 t b).0
late_cancel_lost services env cfg template t b h late =
    subst
      (λ s.
        IsDone s (length cfg.recipients)
          (process_each services env 0 cfg template cfg.recipients 0 0 t b).0)
      (omega arith)
      (cancelled-IsDone services env (length cfg.recipients) late 0 cfg template cfg.recipients 0 0
        t b refl (omega arith) (λ _. h))
