-- ===== src/Worker/Outcome.antt =====
-- Every way in which the handling of a task ends.
use mathlib.Core.Path.{ap₂}
use mathlib.Core.List.{append_assoc}
use axmi_pusher.Base.{
  ◌<◌, none, some, ap, ◌∙◌, sym, arith, ◌+◌, refl, ◌∷◌, ◌++◌, false, [], ◌≤◌, true, ◌≡◌, Option, ℕ,
}
use axmi_pusher.Models.{
  MsgStatus, msg_dead, msg_success, EventType, event_sending, event_dead, event_success,
  TaskMessage,
}
use axmi_pusher.Channel.Registry.{BreakerApi, DispatchError}
use axmi_pusher.Worker.{
  WorkerEnv, Site, LoopEnd, left_early, ended, handle, finish, max_retries, is_circuit_open,
}
use axmi_pusher.Worker.Attempts.{
  RunsFreely, types, retries, IsAt, types-note, IsAt-note, LoopRun, attempts_run, retried,
  result_of,
}

abbrev end_tries : LoopEnd → ℕ
end_tries left_early = 0
end_tries (ended n e) = n

abbrev end_error : LoopEnd → Option DispatchError
end_error left_early = none
end_error (ended n e) = e

ended_tries : {n k : ℕ} {e d : Option DispatchError} → ended n e ≡ ended (0 + k) d → n ≡ k
ended_tries p = ap end_tries p ∙ omega arith

ended_error : {n k : ℕ} {e d : Option DispatchError} → ended n e ≡ ended k d → e ≡ d
ended_error p = ap end_error p

abbrev pub verdict_event : Option DispatchError → EventType
verdict_event none = event_success
verdict_event (some e) = event_dead

abbrev pub verdict_status : Option DispatchError → MsgStatus
verdict_status none = msg_success
verdict_status (some e) = msg_dead

-- How a task is handled: `tries` retries after the first attempt, and the error of the last.
pub record Handled {W S : Type 0} (api : BreakerApi S) (env : WorkerEnv) (m : TaskMessage)
    (before : Site W S) (after : Site W S × LoopEnd) : Type 0 where
  pub tries : ℕ
  pub error : Option DispatchError
  pub bound : tries ≤ max_retries
  pub end : after.1 ≡ ended tries error
  pub spent : (x : DispatchError) → error ≡ some x → is_circuit_open x ≡ false → tries ≡ max_retries
  pub events :
      types after.0.store
      ≡ types before.store ++ (event_sending ∷ (retries tries ++ (verdict_event error ∷ [])))
  pub status : IsAt m.message_id (verdict_status error) after.0.store
  pub result : error ≡ result_of api env m tries 0 before.registry before.world
  pub failed :
      (n : ℕ) → n < tries → retried (result_of api env m n 0 before.registry before.world) ≡ true

module _ {W S : Type 0} (api : BreakerApi S) (env : WorkerEnv) (m : TaskMessage)
    (free : RunsFreely env) where
  finish_store-types :
      (began n : ℕ) (e : Option DispatchError) (site : Site W S)
      → types (finish api env m began (site, ended n e)).0.store
        ≡ types site.store ++ (verdict_event e ∷ [])
  unfolding finish
  finish_store-types began n none site =
      rw (free.granted 4 0, free.granted 4 1) (types-note _ _ _ _ _ _ _ _)
  finish_store-types began n (some x) site =
      rw (free.granted 4 0, free.granted 4 1) (types-note _ _ _ _ _ _ _ _)

  finish-IsAt :
      (began n : ℕ) (e : Option DispatchError) (site : Site W S)
      → IsAt m.message_id (verdict_status e) (finish api env m began (site, ended n e)).0.store
  unfolding finish
  finish-IsAt began n none site =
      rw (free.granted 4 0, free.granted 4 1) (IsAt-note _ _ _ _ _ _ _ _)
  finish-IsAt began n (some x) site =
      rw (free.granted 4 0, free.granted 4 1) (IsAt-note _ _ _ _ _ _ _ _)

  finish-end :
      (began n : ℕ) (e : Option DispatchError) (site : Site W S)
      → (finish api env m began (site, ended n e)).1 ≡ ended n e
  unfolding finish
  finish-end began n none site = refl
  finish-end began n (some x) site = refl

  finished :
      (began : ℕ) (before begun : Site W S) (after : Site W S × LoopEnd)
      → types begun.store ≡ types before.store ++ (event_sending ∷ [])
      → begun.registry ≡ before.registry
      → begun.world ≡ before.world
      → LoopRun api env m 0 max_retries begun after
      → Handled api env m before (finish api env m began after)
  finished began before begun (site, left_early) t r w run = absurd (never run.end)
    where
      never : {n : ℕ} {e : Option DispatchError} → left_early ≡ ended n e → ⊥
      never p = cc
  finished began before begun (site, ended n e) t r w run =
      let tries : n ≡ run.last = ended_tries run.end in
      let error : e ≡ run.error = ended_error run.end in
      record {
        tries = n;
        error = e;
        bound = omega (arith, tries, run.bound);
        end = finish-end began n e site;
        spent = λ x h c. tries ∙ run.spent x (sym error ∙ h) c;
        events =
            finish_store-types began n e site
            ∙ ap (λ es. es ++ (verdict_event e ∷ []))
                (run.events ∙ ap₂ (λ es k. es ++ retries k) t (sym tries))
            ∙ simp append_assoc;
        status = finish-IsAt began n e site;
        result =
            error
            ∙ run.result
            ∙ ap (λ k. result_of api env m k 0 begun.registry begun.world) (sym tries)
            ∙ ap₂ (result_of api env m n 0) r w;
        failed = λ k h.
            ap retried (sym (ap₂ (result_of api env m k 0) r w))
            ∙ run.failed k (omega (arith, tries));
      }

  -- A task that is handled while the database grants every statement and the context lives ends after
  -- at most three retries. Its error is the result of the last dispatch, and each dispatch before that
  -- has failed, and not at an open circuit; it ends with an error after fewer than three retries only
  -- at an open circuit. Its events are one for the sending, one for each retry and one for the
  -- verdict, and its rows are left successful when the last attempt has no error, and dead when it
  -- has one.
  pub handle-Handled : (site : Site W S) → Handled api env m site (handle api env m site)
  unfolding handle
  handle-Handled site =
      finished (env.now 0 5) site _ _
        (rw (free.granted 0 0, free.granted 0 1) (types-note _ _ _ _ _ _ _ _)) refl refl
        (attempts_run api env m free max_retries 0 _)
