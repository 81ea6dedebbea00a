-- ===== src/Compat/Pushes.antt =====
-- Whose messages a push makes.
use axmi_pusher.Base.Keys.{codes}
use axmi_pusher.Base.{
  ◌∷◌, text_beq_iff, arith, first_passes, true, ◌&&◌, [], ◌==◌, Bool-cases, some, refl, Option,
  first, List, ℕ, Text, Bool, none, ◌≡◌, ◌⊎◌, inl, inr, text_eq,
}
use axmi_pusher.Store.{Message}
use axmi_pusher.Models.{RowStatus, active, disabled, pending, TaskMessage}
use axmi_pusher.Service.Messages.{Services, Backend, SendEnv, SendResult, SendError}
use axmi_pusher.Service.Messages.Send.{send}
use axmi_pusher.Service.Messages.Served.{Served, send-Served}
use axmi_pusher.Compat.{
  server_chan_v1, server_chan_v2, push_target, same_source, codes, is_active, CompatSource,
  CompatKey, Form, parse_compat_key, extract_params, is_key, push_request, push, answered,
  handle_push,
}

is_active_lem : (s : RowStatus) → is_active s ≡ true → s ≡ active
is_active_lem active h = refl
is_active_lem disabled h = cc
is_active_lem pending h = cc

same_source_lem : (a b : CompatSource) → same_source a b ≡ true → a ≡ b
same_source_lem server_chan_v1 server_chan_v1 h = refl
same_source_lem server_chan_v1 server_chan_v2 h = cc
same_source_lem server_chan_v2 server_chan_v1 h = cc
same_source_lem server_chan_v2 server_chan_v2 h = refl

module _ {Q L : Type 0} (services : Services Q L) (env : SendEnv)
    (delivers : (q : Q) (t : TaskMessage) → (services.publish q t).1 ≡ none) where
  -- The message table after a push: as it was, or with the rows of a request of the key's tenant.
  unfoldable pub Pushed :
      CompatSource → Text → List CompatKey → List Message → List Message → Type 0
  Pushed source raw keys before after =
      (after ≡ before)
      ⊎ ((k : CompatKey) × ((first (is_key (parse_compat_key raw) source) keys ≡ some k)
            × ((k.status ≡ active)
                × (codes k.external_key ≡ parse_compat_key raw)
                × (k.source ≡ source))
            × ((answer : SendError ⊎ SendResult) × Served services.has_channel env k.tenant_id ""
                  (record { target = push_target k; params = [] } ∷ []) before after answer)))

  answered-backend :
      (refused : Bool) (id now : ℕ) (keys : List CompatKey)
      (r : Backend Q L × (SendError ⊎ SendResult))
      → (answered services env refused id now keys r).1 ≡ r.0
  unfolding answered
  answered-backend refused id now keys (b, inl e) = refl
  answered-backend refused id now keys (b, inr r) = refl

  found-IsKey :
      (source : CompatSource) (raw : Text) (keys : List CompatKey) (k : CompatKey)
      → first (is_key (parse_compat_key raw) source) keys ≡ some k
      → (k.status ≡ active) × (codes k.external_key ≡ parse_compat_key raw) × (k.source ≡ source)
  found-IsKey source raw keys k h =
      let passes : is_key (parse_compat_key raw) source k ≡ true =
        first_passes (is_key (parse_compat_key raw) source) keys k h in
      (
        is_active_lem k.status (ground arith),
        (text_beq_iff (codes k.external_key) (parse_compat_key raw)).0 (ground arith),
        same_source_lem k.source source (ground arith),
      )

  push-Pushed :
      (refused : Bool) (now : ℕ) (source : CompatSource) (raw : Text) (form : Form)
      (found : Option CompatKey) (keys : List CompatKey) (b : Backend Q L)
      → first (is_key (parse_compat_key raw) source) keys ≡ found
      → Pushed source raw keys b.store.messages
          (push services env refused now source form found keys b).1.store.messages
  unfolding push Pushed push_request
  push-Pushed refused now source raw form none keys b h = inl refl
  push-Pushed refused now source raw form (some k) keys b h =
      let (title, desp) = extract_params source form in
      elim (Bool-cases (title == [] && desp == [])) [
        | inl empty ↦ rw empty (inl refl)
        | inr given ↦
            rw (given, answered-backend)
              (let request = push_request k title desp in
                inr (
                  k,
                  (
                    h,
                    found-IsKey source raw keys k h,
                    (
                      (send services env k.tenant_id request b).1,
                      send-Served services env delivers k.tenant_id request b,
                    ),
                  ),
                ))
      ]

  -- A push leaves the message table as it was, or with new rows that the message service has made for
  -- the tenant of an active key: the first with the name in the path and the source of the request.
  -- That key is active, has the name and is of the source. The rows that were there stay as they were. Publish must not fail.
  pub handle_push-Pushed :
      (find_refused refused : Bool) (now : ℕ) (source : CompatSource) (raw : Text) (form : Form)
      (keys : List CompatKey) (b : Backend Q L)
      → Pushed source raw keys b.store.messages
          (handle_push services env find_refused refused now source raw form keys
            b).1.store.messages
  unfolding handle_push Pushed
  handle_push-Pushed find_refused refused now source raw form keys b =
      elim (Bool-cases (parse_compat_key raw == [])) [
        | inl nameless ↦ rw nameless (inl refl)
        | inr named ↦ rw named (elim (Bool-cases find_refused) [
          | inl unread ↦ rw unread (inl refl)
          | inr read ↦ rw read (
              push-Pushed refused now source raw form
                (first (is_key (parse_compat_key raw) source) keys) keys b refl)
        ])
      ]
