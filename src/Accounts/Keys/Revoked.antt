-- ===== src/Accounts/Keys/Revoked.antt =====
-- A key that was revoked.
use axmi_pusher.Accounts.Keys.Lives.{KeyCall, create, resolve, revoke, after_call, after_calls}
use axmi_pusher.Base.{
  ℕ, Text, Bool, Option, List, [], ◌∷◌, true, false, some, none, inr, ◌≡◌, ◌≢◌, refl, arith, ◌==◌,
  ◌≤◌, ◌&&◌, nat_eq, string_eq, update, first, not, count, count-append, count-update_same,
  nat_beq_iff, ◌∙◌, All,
}
use axmi_pusher.Models.{disabled, is_active}
use axmi_pusher.Accounts.{ApiKey, Crypto}
use axmi_pusher.Accounts.Keys.{create_api_key, resolve_api_key, revoke_api_key, used_key, opens}

-- A call that makes no row with a key.
abbrev pub IsNotMaking : ℕ → KeyCall → Type 0
IsNotMaking id (create refused i t plain name scopes e) = (i == id) ≡ false
IsNotMaking id _ = Unit

-- The active rows with a key.
abbrev pub active_rows : ℕ → List ApiKey → ℕ
active_rows id keys = count (λ k. k.id == id && is_active k.status) keys

module _ (crypto : Crypto) (id : ℕ) where
  used_key-inactive :
      (refused : Bool) (now : ℕ) (keys : List ApiKey) (o : Option ApiKey)
      → active_rows id (used_key crypto refused now keys o).0 ≡ active_rows id keys
  unfolding used_key
  used_key-inactive refused now keys none = refl
  used_key-inactive refused now keys (some k) =
      let same =
        count-update_same (λ r. r.id == id && is_active r.status) (λ r. r.id == k.id)
          (λ r. record r { last_used_at = some now }) keys (λ r. refl) in
      ground arith

  revoked-fewer :
      (q : ApiKey → Bool) (keys : List ApiKey)
      → active_rows id (update q (λ k. record k { status = disabled }) keys) ≤ active_rows id keys
  revoked-fewer q [] = omega arith
  revoked-fewer q (k ∷ keys) = ground (arith, revoked-fewer q keys)

  after_call-inactive :
      (c : KeyCall) (keys : List ApiKey)
      → IsNotMaking id c
      → active_rows id keys ≡ 0
      → active_rows id (after_call crypto c keys) ≡ 0
  unfolding after_call create_api_key resolve_api_key revoke_api_key
  after_call-inactive (create refused i t plain name scopes e) keys other h =
      grind (arith, count-append)
  after_call-inactive (resolve refused refused' now plain) keys other h =
      used_key-inactive refused' now keys _ ∙ h
  after_call-inactive (revoke refused t i) keys other h =
      ground (arith, revoked-fewer (λ k. k.id == i && k.tenant_id == t) keys)

  pub after_calls-inactive :
      (cs : List KeyCall) (keys : List ApiKey)
      → All (IsNotMaking id) cs
      → active_rows id keys ≡ 0
      → active_rows id (after_calls crypto cs keys) ≡ 0
  unfolding after_calls
  after_calls-inactive [] keys others h = h
  after_calls-inactive (c ∷ cs) keys (other, others) h =
      after_calls-inactive cs (after_call crypto c keys) others (after_call-inactive c keys other h)

  pub revoke-inactive :
      (tenant : ℕ) (keys : List ApiKey)
      → count (λ k. k.id == id && not (k.tenant_id == tenant)) keys ≡ 0
      → active_rows id (
          update
            (λ k. k.id == id && k.tenant_id == tenant)
            (λ k. record k { status = disabled })
            keys)
        ≡ 0
  revoke-inactive tenant [] h = refl
  revoke-inactive tenant (k ∷ keys) h = ground (arith, revoke-inactive tenant keys)

  found_active :
      (plain : Text) (keys : List ApiKey) (r : ApiKey)
      → first (opens crypto plain) keys ≡ some r
      → (r.id == id) ≡ true
      → 1 ≤ active_rows id keys
  found_active plain [] r h same = cc
  found_active plain (k ∷ keys) r h same = ground (arith, found_active plain keys r)

  pub used_key-ne :
      (plain : Text) (refused : Bool) (now : ℕ) (keys : List ApiKey) (o : Option ApiKey)
      (k : ApiKey)
      → ((r : ApiKey) → o ≡ some r → first (opens crypto plain) keys ≡ some r)
      → active_rows id keys ≡ 0
      → (used_key crypto refused now keys o).1 ≡ inr k
      → k.id ≢ id
  unfolding used_key
  used_key-ne plain refused now keys none k read h e same = cc
  used_key-ne plain refused now keys (some r) k read h e same =
      ground (arith, found_active plain keys r (read r refl), nat_beq_iff r.id id)
