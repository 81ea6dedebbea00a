-- ===== src/Worker/Attempts.antt =====
-- The attempts at a task: each is a dispatch, and what its result leads to.
use mathlib.Core.List.{append-nil, append_assoc, map-append}
use native.Mathlib.Nat.{add-zero}
use axmi_pusher.Base.{
  ◌<◌, Bool, inr, inl, Bool-cases, if◌then◌else◌, none, some, ap, ◌∙◌, sym, arith, ◌+◌, update,
  refl, zero, ◌∷◌, ◌++◌, map, false, [], ◌≤◌, true, Text, All, ◌≡◌, Option, suc, List, replicate, ℕ,
}
use axmi_pusher.Models.{MsgStatus, EventType, event_retry, TaskMessage}
use axmi_pusher.Channel.Registry.{
  send_failed, circuit_open, dispatch, not_registered, Registry, BreakerApi, DispatchError,
}
use axmi_pusher.Store.{Message, Store, update_status, save_event, has_id}
use axmi_pusher.Worker.{
  WorkerEnv, Site, LoopEnd, ended, attempts, note, before_attempt, dispatch_from, waits_out,
  is_circuit_open,
}

-- No statement is refused, and the context outlives the retries.
pub record RunsFreely (env : WorkerEnv) : Type 0 where
  pub granted : (k i : ℕ) → env.refuses k i ≡ false
  pub lives : (k : ℕ) → env.cancelled k ≡ false

abbrev pub types : Store → List EventType
types s = map (λ e. e.event_type) s.events

-- What the loop adds to the events: a retry for each attempt after the first.
abbrev pub retries : ℕ → List EventType
retries n = replicate n event_retry

-- The rows of a key, all in one state.
abbrev pub IsAt : ℕ → MsgStatus → Store → Type 0
IsAt i status s = All (λ r. has_id i r ≡ true → r.status ≡ status) s.messages

pub types-note :
    (i at event_at : ℕ) (status : MsgStatus) (error : Text) (event : EventType) (detail : Text)
    (s : Store)
    → types (note false false i at event_at status error event detail s) ≡ types s ++ (event ∷ [])
unfolding note save_event update_status
types-note i at event_at status error event detail s = map-append _ s.events _

pub IsAt-note :
    (i at event_at : ℕ) (status : MsgStatus) (error : Text) (event : EventType) (detail : Text)
    (s : Store)
    → IsAt i status (note false false i at event_at status error event detail s)
unfolding note save_event update_status
IsAt-note i at event_at status error event detail s = rows s.messages
  where
    rows :
        (ms : List Message)
        → All
            (λ r. has_id i r ≡ true → r.status ≡ status)
            (update
              (has_id i)
              (λ m. record m { status = status; error = error; updated_at = at })
              ms)
    rows [] = tt
    rows (m ∷ ms) = (λ h. ground arith, rows ms)

-- What an attempt writes before it waits: a retry, but for the first.
abbrev pub opening : ℕ → List EventType
opening zero = []
opening (suc k) = event_retry ∷ []

-- Which results the loop tries again after.
abbrev pub retried : Option DispatchError → Bool
retried none = false
retried (some (not_registered c)) = true
retried (some (circuit_open c)) = false
retried (some (send_failed e)) = true

-- The result of the n-th dispatch after attempt k, when a task is dispatched again and again.
unfoldable pub result_of :
    {W S : Type 0}
    → BreakerApi S
    → WorkerEnv
    → TaskMessage
    → ℕ
    → ℕ
    → Registry W S
    → W
    → Option DispatchError
result_of api env m zero k r w =
    let (r', w', e) = dispatch api r w m (env.now k 2) (env.now k 3) (env.now k 4) in e
result_of api env m (suc n) k r w =
    let (r', w', e) = dispatch api r w m (env.now k 2) (env.now k 3) (env.now k 4) in
    result_of api env m n (suc k) r' w'

-- A run of the loop from an attempt, with `left` to follow: the attempts that it makes after this
-- one, the results of their dispatches, and the events that it adds.
pub record LoopRun {W S : Type 0} (api : BreakerApi S) (env : WorkerEnv) (m : TaskMessage)
    (attempt left : ℕ) (before : Site W S) (after : Site W S × LoopEnd) : Type 0 where
  pub last : ℕ
  pub error : Option DispatchError
  pub bound : last ≤ left
  pub end : after.1 ≡ ended (attempt + last) error
  pub events : types after.0.store ≡ types before.store ++ (opening attempt ++ retries last)
  pub spent : (x : DispatchError) → error ≡ some x → is_circuit_open x ≡ false → last ≡ left
  pub result : error ≡ result_of api env m last attempt before.registry before.world
  pub failed :
      (n : ℕ)
      → n < last
      → retried (result_of api env m n attempt before.registry before.world) ≡ true

goes_on : (env : WorkerEnv) → RunsFreely env → (k : ℕ) → waits_out env k ≡ false
unfolding waits_out
goes_on env free zero = refl
goes_on env free (suc k) = free.lives (suc k)

retried-other : (x : DispatchError) → is_circuit_open x ≡ false → retried (some x) ≡ true
retried-other (not_registered c) h = refl
retried-other (circuit_open c) h = cc
retried-other (send_failed e) h = refl

module _ {W S : Type 0} (api : BreakerApi S) (env : WorkerEnv) (m : TaskMessage)
    (free : RunsFreely env) where
  types-before_attempt :
      (k : ℕ) (site : Site W S)
      → types (before_attempt api env m k site).store ≡ types site.store ++ opening k
  unfolding before_attempt
  types-before_attempt zero site = sym (append-nil (types site.store))
  types-before_attempt (suc k) site =
      rw (free.granted (suc k) 0, free.granted (suc k) 1) (types-note _ _ _ _ _ _ _ _)

  types-dispatch_from :
      (k : ℕ) (site : Site W S) → types (dispatch_from api env m k site).0.store ≡ types site.store
  unfolding dispatch_from
  types-dispatch_from k site = refl

  sent_at : ℕ → Site W S → Site W S
  sent_at k site = (dispatch_from api env m k (before_attempt api env m k site)).0

  types-sent_at :
      (k : ℕ) (site : Site W S) → types (sent_at k site).store ≡ types site.store ++ opening k
  unfolding sent_at
  types-sent_at k site =
      types-dispatch_from k (before_attempt api env m k site) ∙ types-before_attempt k site

  result_of-now :
      (k : ℕ) (site : Site W S)
      → (dispatch_from api env m k (before_attempt api env m k site)).1
        ≡ result_of api env m 0 k site.registry site.world
  unfolding dispatch_from before_attempt result_of
  result_of-now zero site = refl
  result_of-now (suc k) site = refl

  result_of-later :
      (n k : ℕ) (site : Site W S)
      → result_of api env m n (suc k) (sent_at k site).registry (sent_at k site).world
        ≡ result_of api env m (suc n) k site.registry site.world
  unfolding sent_at dispatch_from before_attempt result_of
  result_of-later n zero site = refl
  result_of-later n (suc k) site = refl

  stops :
      (k left : ℕ) (site : Site W S) (e : Option DispatchError)
      → ((x : DispatchError) → e ≡ some x → is_circuit_open x ≡ false → 0 ≡ left)
      → e ≡ (dispatch_from api env m k (before_attempt api env m k site)).1
      → LoopRun api env m k left site (sent_at k site, ended k e)
  stops k left site e sp res = record {
    spent = sp;
    result = res ∙ result_of-now k site;
    failed = λ n h. absurd (omega arith);
    last = 0;
    error = e;
    bound = omega arith;
    end = ap (λ n. ended n e) (sym (add-zero k));
    events = rw append-nil (types-sent_at k site);
  }

  tries_again :
      (k left : ℕ) (site : Site W S) (after : Site W S × LoopEnd)
      → retried (dispatch_from api env m k (before_attempt api env m k site)).1 ≡ true
      → LoopRun api env m (suc k) left (sent_at k site) after
      → LoopRun api env m k (suc left) site after
  tries_again k left site after again run = record {
    result = run.result ∙ result_of-later run.last k site;
    failed = each;
    spent = λ x h c. ap suc (run.spent x h c);
    last = suc run.last;
    error = run.error;
    bound = omega (arith, run.bound);
    end = run.end ∙ ap (λ n. ended n run.error) (omega arith);
    events =
        run.events
        ∙ ap (λ es. es ++ retries (suc run.last)) (types-sent_at k site)
        ∙ append_assoc (types site.store) (opening k) (retries (suc run.last));
  }
    where
      each :
          (n : ℕ)
          → n < suc run.last
          → retried (result_of api env m n k site.registry site.world) ≡ true
      each zero h = ap retried (sym (result_of-now k site)) ∙ again
      each (suc n) h = ap retried (sym (result_of-later n k site)) ∙ run.failed n (omega arith)

  pub attempts_run :
      (left attempt : ℕ) (site : Site W S)
      → LoopRun api env m attempt left site (attempts api env m left attempt site)
  unfolding attempts sent_at
  attempts_run zero attempt site =
      rw (goes_on env free attempt) (stops attempt 0 site _ (λ x h c. refl) refl)
  attempts_run (suc left) attempt site = rw (goes_on env free attempt) (
      by_result (dispatch_from api env m attempt (before_attempt api env m attempt site)).1 refl
        (attempts_run left (suc attempt) (sent_at attempt site)))
    where
      again : Site W S × LoopEnd
      again = attempts api env m left (suc attempt) (sent_at attempt site)

      by_result :
          (e : Option DispatchError)
          → e ≡ (dispatch_from api env m attempt (before_attempt api env m attempt site)).1
          → LoopRun api env m (suc attempt) left (sent_at attempt site) again
          → LoopRun api env m attempt (suc left) site (elim e [
            | none ↦ (sent_at attempt site, ended attempt none)
            | some x ↦
                if is_circuit_open x then (sent_at attempt site, ended attempt (some x)) else again
          ])
      by_result none same run = stops attempt (suc left) site none (λ x h c. cc) same
      by_result (some x) same run = elim (Bool-cases (is_circuit_open x)) [
        | inl opened ↦ rw opened (stops attempt (suc left) site (some x) (λ y h c. cc) same)
        | inr other ↦
            rw other
              (tries_again attempt left site _ (ap retried (sym same) ∙ retried-other x other) run)
      ]
